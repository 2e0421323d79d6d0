-- ===== src/ControllerUtil/Fresh.antt =====
-- What `CreateIfNotExists` (pkg/controllerutil/controllerutil.go) creates where nothing was.
use multi_tenants.Base.{
  not, ◌≡◌, refl, some, none, Result, Error, ok, err, attempt, Keeps-pure, Returns, Ensures,
  Ensures-if, Ensures-throw, Ensures-bind_of, Ensures-bind_first,
}
use multi_tenants.Api.{Kind, Object, ObjectKey, Machinery}
use multi_tenants.Client.{Client}
use multi_tenants.Client.Server.{Lookup, IsLawfulClient, Stores}
use multi_tenants.ControllerUtil.{
  OperationResult, MutateFn, mutate, create_unless_found, create_if_not_exists,
}
use multi_tenants.ControllerUtil.Creating.{mutate-Returns}

module _ {W : Type 0} (c : Client W) (m : Machinery) (lookup : Lookup W)
    (lawful : IsLawfulClient c m lookup) (k : Kind) (f : MutateFn W k) (Q : Object k → Type 0) where
  -- The server holds what it stores for an object with the property.
  pub record IsMade (key : ObjectKey) (w : W) : Type 0 where
    pub sent : Object k
    pub stored : Object k
    pub promised : Q sent
    pub alike : Stores k sent stored
    pub held : lookup k key w ≡ some stored

  create-IsMade :
      (key : ObjectKey) (o : Object k)
      → Q o
      → key ≡ c.object_key k o
      → Ensures (IsMade key) (c.create k o)
  create-IsMade key o q same = record {
    after = λ w r e.
        let (o', held, alike) = lawful.create-ok k o r w e in
        record { sent = o; stored = o'; promised = q; alike = alike; held = rw same held };
  }

  -- Where the object does not exist and the call succeeds, the server holds what the mutation left.
  pub create_if_not_exists-IsMade :
      (obj : Object k) (w : W) (r : OperationResult)
      → lookup k (c.object_key k obj) w ≡ none
      → Returns Q (f obj)
      → (create_if_not_exists c m k obj f w).0 ≡ ok r
      → IsMade (c.object_key k obj) (create_if_not_exists c m k obj f w).1
  unfolding create_if_not_exists attempt
  create_if_not_exists-IsMade obj w r empty returns done = by_result (c.get k key w).0 refl done
    where
      key : ObjectKey
      key = c.object_key k obj

      missing : (x : Error) → Ensures (IsMade key) (create_unless_found c m k key obj f (err x))
      missing x = Ensures-if (not (m.is_not_found x)) _ _ (Ensures-throw x) (
          Ensures-bind_of (λ o. Q o × (key ≡ c.object_key k o)) (mutate c m k f key obj) _
            (mutate-Returns c m k f Q key obj returns)
            (λ o q. Ensures-bind_first _ _ (create-IsMade key o q.0 q.1) (λ _. Keeps-pure _)))

      by_result :
          (s : Result (Object k))
          → (c.get k key w).0 ≡ s
          → (create_unless_found c m k key obj f s (c.get k key w).1).0 ≡ ok r
          → IsMade key (create_unless_found c m k key obj f s (c.get k key w).1).1
      by_result (ok o) e q = let found = lawful.get-found k key w o e in cc
      by_result (err x) e q = (missing x).after (c.get k key w).1 r q
