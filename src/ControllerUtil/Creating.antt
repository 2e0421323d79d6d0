-- ===== src/ControllerUtil/Creating.antt =====
-- What `CreateIfNotExists` of pkg/controllerutil/controllerutil.go promises.
use multi_tenants.Base.{
  false, not, ◌≡◌, refl, sym, ◌∙◌, inl, inr, none, some, Result, ok, err, Error, arith, attempt,
  ◌>>=◌, Keeps, Keeps-attempt, Keeps-bind_of, Keeps-pure, keeps, Returns, Returns-if, Returns-pure,
  Returns-throw, Returns-bind_of, Ensures, Ensures-if, Ensures-throw, Ensures-bind_of,
  Ensures-bind_first, ◌!=◌, Bool-cases, Keeps-if, Keeps-bind, Keeps-throw,
}
use multi_tenants.Api.{Kind, Object, ObjectKey, ObjectKey_eq, Machinery}
use multi_tenants.Client.{Client}
use multi_tenants.Client.Server.{Lookup, IsLawfulClient}
use multi_tenants.ControllerUtil.{
  OperationResult, MutateFn, mutate, create_unless_found, create_if_not_exists,
}

module _ {W : Type 0} (c : Client W) (m : Machinery) (k : Kind) (f : MutateFn W k) where
  pub mutate-Keeps :
      (P : W → Type 0) (key : ObjectKey) (obj : Object k)
      → ((o : Object k) → Keeps P (f o))
      → Keeps P (mutate c m k f key obj)
  unfolding mutate
  mutate-Keeps P key obj h = search keeps

  check_key-eq :
      (key : ObjectKey) (o : Object k) → (key != c.object_key k o) ≡ false → key ≡ c.object_key k o
  check_key-eq key o h = ground arith

  -- What is mutated satisfies what `f` promises, and still has its key.
  pub mutate-Returns :
      (Q : Object k → Type 0) (key : ObjectKey) (obj : Object k)
      → Returns Q (f obj)
      → Returns (λ o. Q o × (key ≡ c.object_key k o)) (mutate c m k f key obj)
  unfolding mutate
  mutate-Returns Q key obj h = Returns-bind_of Q (f obj) _ h (λ o q.
      Returns-if (key != c.object_key k o) _ _ (λ _. Returns-throw _)
        (λ same. Returns-pure o (q, check_key-eq key o same)))

  -- Whatever the reads, the mutation and the creation of the mutated object keep, is kept.
  pub create_if_not_exists-Keeps :
      (P : W → Type 0) (Q : Object k → Type 0) (obj : Object k)
      → ((key : ObjectKey) → Keeps P (c.get k key))
      → ((o : Object k) → Keeps P (f o))
      → Returns Q (f obj)
      → ((o : Object k) → Q o → Keeps P (c.create k o))
      → Keeps P (create_if_not_exists c m k obj f)
  unfolding create_if_not_exists
  create_if_not_exists-Keeps P Q obj reads mutates returns creates =
      Keeps-attempt (c.get k key) (create_unless_found c m k key obj f) (reads key) cases
    where
      key : ObjectKey
      key = c.object_key k obj

      cases : (r : Result (Object k)) → Keeps P (create_unless_found c m k key obj f r)
      cases (ok o) = Keeps-pure _
      cases (err e) = Keeps-if (not (m.is_not_found e)) _ _ (Keeps-throw e) (
          Keeps-bind_of _ (mutate c m k f key obj) _ (mutate-Keeps P key obj mutates)
            (mutate-Returns Q key obj returns)
            (λ o q. Keeps-bind _ _ (creates o q.0) (λ _. Keeps-pure _)))

some≢none : {A : Type 0} {a : A} → some a ≡ none → ⊥
some≢none h = cc

-- Some object is held in the slot.
abbrev pub IsPresent : {W : Type 0} → Lookup W → (k : Kind) → ObjectKey → W → Type 0
IsPresent lookup k key w = (o : Object k) × (lookup k key w ≡ some o)

module _ {W : Type 0} (c : Client W) (m : Machinery) (lookup : Lookup W)
    (lawful : IsLawfulClient c m lookup) (k : Kind) (f : MutateFn W k) where
  open lawful use {get-reads, get-found, get-missing, create-ok}

  present-not_missing :
      (key : ObjectKey) (w : W) (o : Object k) (x : Error)
      → lookup k key w ≡ some o
      → (c.get k key w).0 ≡ err x
      → m.is_not_found x ≡ false
  present-not_missing key w o x held e = elim (Bool-cases (m.is_not_found x)) [
    | inl t ↦ absurd (some≢none (sym held ∙ get-missing k key w x e t))
    | inr f ↦ f
  ]

  -- Where the object exists, CreateIfNotExists does no more than read it, does not run the
  -- mutation, and can only report that there was nothing to do or fail. The code outside behaves
  -- as documented.
  pub create_if_not_exists_found :
      (obj : Object k) (w : W)
      → IsPresent lookup k (c.object_key k obj) w
      → ((create_if_not_exists c m k obj f w).1 ≡ (c.get k (c.object_key k obj) w).1)
        × ((r : OperationResult)
            → (create_if_not_exists c m k obj f w).0 ≡ ok r
            → r ≡ OperationResult.unchanged)
  unfolding create_if_not_exists ◌>>=◌
  create_if_not_exists_found obj w (o, held) = by_result (c.get k key w).0 refl
    where
      key : ObjectKey
      key = c.object_key k obj

      by_result :
          (r : Result (Object k))
          → (c.get k key w).0 ≡ r
          → ((create_unless_found c m k key obj f r (c.get k key w).1).1 ≡ (c.get k key w).1)
            × ((s : OperationResult)
                → (create_unless_found c m k key obj f r (c.get k key w).1).0 ≡ ok s
                → s ≡ OperationResult.unchanged)
      by_result (ok o') e = (refl, λ s q. cc)
      by_result (err x) e = rw (present-not_missing key w o x held e) (refl, λ s q. cc)

  create-Ensures :
      (key : ObjectKey) (o : Object k)
      → key ≡ c.object_key k o
      → Ensures (IsPresent lookup k key) (c.create k o)
  create-Ensures key o same = record {
    after = λ w r q. let (o', held, _) = create-ok k o r w q in (o', rw same held);
  }

  -- When CreateIfNotExists succeeds, the object exists on the server. The code outside behaves
  -- as documented.
  pub create_if_not_exists-Ensures :
      (obj : Object k)
      → Ensures (IsPresent lookup k (c.object_key k obj)) (create_if_not_exists c m k obj f)
  unfolding create_if_not_exists attempt
  create_if_not_exists-Ensures obj = record {
    after = λ w r q. by_result w r (c.get k key w).0 refl q;
  }
    where
      key : ObjectKey
      key = c.object_key k obj

      missing :
          (x : Error)
          → Ensures (IsPresent lookup k key) (create_unless_found c m k key obj f (err x))
      missing x = Ensures-if (not (m.is_not_found x)) _ _ (Ensures-throw x) (
          Ensures-bind_of (λ o. Unit × (key ≡ c.object_key k o)) (mutate c m k f key obj) _
            (mutate-Returns c m k f (λ _. Unit) key obj (record { result = λ w a q. tt }))
            (λ o same. Ensures-bind_first _ _ (create-Ensures key o same.1) (λ _. Keeps-pure _)))

      by_result :
          (w : W) (r : OperationResult) (s : Result (Object k))
          → (c.get k key w).0 ≡ s
          → (create_unless_found c m k key obj f s (c.get k key w).1).0 ≡ ok r
          → IsPresent lookup k key (create_unless_found c m k key obj f s (c.get k key w).1).1
      by_result w r (ok o) e q' = (o, get-reads k k key key w ∙ get-found k key w o e)
      by_result w r (err x) e q' = (missing x).after (c.get k key w).1 r q'
