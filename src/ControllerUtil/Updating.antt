-- ===== src/ControllerUtil/Updating.antt =====
-- What `UpdateIfExists` of pkg/controllerutil/controllerutil.go promises.
use multi_tenants.Base.{
  ◌≡◌, refl, ◌∙◌, Result, ok, err, Keeps, Keeps-attempt, Keeps-bind_of, Keeps-bind, Keeps-if,
  Keeps-pure, Keeps-throw,
}
use multi_tenants.Api.{Kind, Object, ObjectKey, Machinery}
use multi_tenants.Client.{Client}
use multi_tenants.Client.Server.{Lookup, IsLawfulClient}
use multi_tenants.ControllerUtil.{MutateFn, mutate, update_if_found, update_if_exists}
use multi_tenants.ControllerUtil.Creating.{mutate-Keeps, mutate-Returns}

module _ {W : Type 0} (c : Client W) (m : Machinery) (lookup : Lookup W)
    (lawful : IsLawfulClient c m lookup) (k : Kind) (f : MutateFn W k) where
  -- UpdateIfExists changes no object under another key or of another kind, on every branch and
  -- also when it fails, if the mutation itself does not. The code outside behaves as documented.
  pub update_if_exists-frame :
      (obj : Object k) (j : Kind) (slot : ObjectKey) (w : W)
      → ((o : Object k) (x : W) → lookup j slot (f o x).1 ≡ lookup j slot x)
      → (k ≡ j → c.object_key k obj ≡ slot → ⊥)
      → lookup j slot (update_if_exists c m k obj f w).1 ≡ lookup j slot w
  unfolding update_if_exists update_if_found
  update_if_exists-frame obj j slot w mutates other =
      (Keeps-attempt (c.get k key) (update_if_found c m k key f)
          (record { run = λ x e. lawful.get-reads k j key slot x ∙ e }) found).run
        w refl
    where
      key : ObjectKey
      key = c.object_key k obj

      Same : W → Type 0
      Same x = lookup j slot x ≡ lookup j slot w

      updates : (o : Object k) → key ≡ c.object_key k o → Keeps Same (c.update k o)
      updates o q = record {
        run = λ x e. lawful.update-frame k j o slot x (λ s p. other s (q ∙ p)) ∙ e;
      }

      found : (r : Result (Object k)) → Keeps Same (update_if_found c m k key f r)
      found (err e) = Keeps-if (m.is_not_found e) _ _ (Keeps-pure _) (Keeps-throw e)
      found (ok existing) =
          Keeps-bind_of _ (mutate c m k f key existing) _
            (mutate-Keeps c m k f Same key existing (λ o. record { run = λ x e. mutates o x ∙ e }))
            (mutate-Returns c m k f (λ _. Unit) key existing (record { result = λ _ _ _. tt }))
            (λ o q.
              Keeps-if (c.deep_equal k existing o) _ _ (Keeps-pure _)
                (Keeps-bind (c.update k o) _ (updates o q.1) (λ _. Keeps-pure _)))
