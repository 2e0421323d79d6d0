-- ===== src/ControllerUtil/Stored.antt =====
-- What a call of `PatchIfExists` (pkg/controllerutil/controllerutil.go) that gives no error has
-- stored.
use multi_tenants.Base.{◌≡◌, refl, sym, ◌∙◌, ap, subst, none, some, Result, ok, err, option_eq}
use multi_tenants.Api.{Kind, Object, ObjectKey, ObjectKey_eq, Machinery, meta_of}
use multi_tenants.Client.{Client, Converter}
use multi_tenants.Client.Server.{Lookup, IsLawfulClient}
use multi_tenants.ControllerUtil.{MutateFn}
use multi_tenants.ControllerUtil.Patch.{
  Split, split, send_patches, prepare, send_prepared, patch_if_found, patch_if_exists,
}
use multi_tenants.ControllerUtil.Preparing.{mutate-ok, prepare-ok, prepare-Keeps, object_inj}
use multi_tenants.ControllerUtil.Storing.{IsLawfulPatch, Stores, send_patches-Stores}

module _ {W : Type 0} (c : Client W) (m : Machinery) (v : Converter) (lookup : Lookup W) (k : Kind)
    (lawful : IsLawfulPatch c v lookup k) (client : IsLawfulClient c m lookup)
    (f : MutateFn W k) where
  prepared-Stores :
      (P : W → Type 0) (base : Object k) (w : W) (r : Result (Split v × Object k × Split v))
      → ((before after : Split v) (o : Object k)
          → r ≡ ok (before, o, after)
          → (send_patches c m v k base before o after w).0.1 ≡ none
          → P (send_patches c m v k base before o after w).1)
      → (send_prepared c m v k base (r, w)).0.1 ≡ none
      → P (send_prepared c m v k base (r, w)).1
  unfolding send_prepared
  prepared-Stores P base w (err e) g h = cc
  prepared-Stores P base w (ok (before, o, after)) g h = g before after o refl h

  -- The object that was mutated and is not being deleted is held in its unstructured form.
  pub patch_if_exists-Stores :
      (obj base o : Object k) (w : W)
      → (c.get k (c.object_key k obj) w).0 ≡ ok base
      → (f base (c.get k (c.object_key k obj) w).1).0 ≡ ok o
      → (meta_of k o).deletion_timestamp ≡ none
      → ((b : Object k) (x : W)
          → lookup k (c.object_key k obj) (f b x).1 ≡ lookup k (c.object_key k obj) x)
      → (patch_if_exists c m v k obj (some f) w).0.1 ≡ none
      → (form : Split v) × ((split v k o ≡ ok form)
          × Stores c m v lookup k lawful
              (c.object_key k obj)
              form
              (patch_if_exists c m v k obj (some f) w).1)
  unfolding patch_if_exists patch_if_found
  patch_if_exists-Stores obj base o w found mutated live reads =
      subst
        (λ r.
          (patch_if_found c m v k key (some f) (r, w1)).0.1 ≡ none
          → P (patch_if_found c m v k key (some f) (r, w1)).1)
        (sym found) (prepared-Stores P base w2 (prepare c m v k key (some f) base w1).0 sent)
    where
      key : ObjectKey
      key = c.object_key k obj

      w1 : W
      w1 = (c.get k key w).1

      w2 : W
      w2 = (prepare c m v k key (some f) base w1).1

      P : W → Type 0
      P x =
          (form : Split v) × ((split v k o ≡ ok form)
            × Stores c m v lookup k lawful (c.object_key k obj) form x)

      held : lookup k key w2 ≡ some base
      held =
          (prepare-Keeps c m v k f key base (λ x. lookup k key x ≡ some base)
              (λ b. record { run = λ x e. reads b x ∙ e })).run
            w1 (client.get-reads k k key key w ∙ client.get-found k key w base found)

      sent :
          (before after : Split v) (o' : Object k)
          → (prepare c m v k key (some f) base w1).0 ≡ ok (before, o', after)
          → (send_patches c m v k base before o' after w2).0.1 ≡ none
          → P (send_patches c m v k base before o' after w2).1
      sent before after o' e q =
          let (split_base, mutates, split_o) =
            prepare-ok c m v k f key base w1 (before, o', after) e in
          let (done, same) = mutate-ok c m v k f key base o' w1 mutates in
          let equal = object_inj c m v k f o o' (sym mutated ∙ done) in
          (
            after,
            (
              ap (λ y. split v k y) equal ∙ split_o,
              subst
                  (λ y.
                    Stores c m v lookup k lawful y after
                      (send_patches c m v k base before o' after w2).1)
                  same
                  (send_patches-Stores c m v lookup k lawful base o' before after w2
                    (subst (λ y. lookup k y w2 ≡ some base) (sym same) held) split_base split_o
                    (ap (λ y. (meta_of k y).deletion_timestamp) (sym equal) ∙ live) q),
            ),
          )
