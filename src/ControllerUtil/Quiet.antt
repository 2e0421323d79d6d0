-- ===== src/ControllerUtil/Quiet.antt =====
-- `PatchIfExists` (pkg/controllerutil/controllerutil.go) where the mutation changes nothing.
use multi_tenants.Base.{
  false, ◌≡◌, refl, sym, ◌∙◌, ap, none, some, Option, Result, ok, err, arith, ◌!=◌, option_eq,
}
use multi_tenants.Api.{Kind, Object, ObjectKey, Machinery}
use multi_tenants.Client.{Client, Converter}
use multi_tenants.ControllerUtil.{OperationResult, MutateFn}
use multi_tenants.ControllerUtil.Patch.{
  Split, split, send_patches, prepare, send_prepared, patch_if_found, patch_if_exists,
}
use multi_tenants.ControllerUtil.Preparing.{mutate-ok, prepare-ok, prepare-Keeps, object_inj}
use multi_tenants.ControllerUtil.PatchTable.{send_patches_table}

module _ {W : Type 0} (c : Client W) (m : Machinery) (v : Converter) (k : Kind) where
  resource_equal : (a : v.Unstructured) → ◌!=◌ ⦃e = v.unstructured_eq⦄ a a ≡ false
  resource_equal a = ground arith

  status_equal : (a : Option v.Value) → ◌!=◌ ⦃e = option_eq ⦃e = v.value_eq⦄⦄ a a ≡ false
  status_equal a = ground arith

  send_patches-same :
      (base o : Object k) (s : Split v) (w : W)
      → send_patches c m v k base s o s w ≡ ((OperationResult.unchanged, none), w)
  send_patches-same base o s w =
      send_patches_table c m v k base o s s w ∙ rw (resource_equal s.0, status_equal s.1) refl

  same_form : (a b : Split v) → ◌≡◌ {A = Result (Split v)} (ok a) (ok b) → a ≡ b
  same_form a b h = cc

  send_prepared-still :
      (base : Object k) (w : W) (r : Result (Split v × Object k × Split v))
      → ((x : Split v × Object k × Split v) → r ≡ ok x → x.0 ≡ x.2)
      → (send_prepared c m v k base (r, w)).1 ≡ w
  unfolding send_prepared
  send_prepared-still base w (err e) same = refl
  send_prepared-still base w (ok (before, o, after)) same =
      ap (λ s. (send_patches c m v k base before o s w).1) (sym (same (before, o, after) refl))
      ∙ ap (λ x. x.1) (send_patches-same base o before w)

  -- A closure that calls nothing.
  module _ (f : MutateFn W k) (local : (o : Object k) (w : W) → (f o w).1 ≡ w) where
    prepare-same :
        (key : ObjectKey) (base : Object k) (w : W) (x : Split v × Object k × Split v)
        → (f base w).0 ≡ ok base
        → (prepare c m v k key (some f) base w).0 ≡ ok x
        → x.0 ≡ x.2
    prepare-same key base w x still h =
        let (split_base, mutated, split_o) = prepare-ok c m v k f key base w x h in
        let (done, _) = mutate-ok c m v k f key base x.1 w mutated in
        let equal = object_inj c m v k f base x.1 (sym still ∙ done) in
        same_form x.0 x.2 (sym split_base ∙ ap (λ o. split v k o) equal ∙ split_o)

    prepare-world :
        (key : ObjectKey) (base : Object k) (w : W) → (prepare c m v k key (some f) base w).1 ≡ w
    prepare-world key base w =
        (prepare-Keeps c m v k f key base (λ x. x ≡ w)
            (λ o. record { run = λ x e. local o x ∙ e })).run
          w refl

    found-world :
        (key : ObjectKey) (r : Result (Object k)) (w : W)
        → ((base : Object k) → r ≡ ok base → (f base w).0 ≡ ok base)
        → (patch_if_found c m v k key (some f) (r, w)).1 ≡ w
    unfolding patch_if_found
    found-world key (err e) w still = ground arith
    found-world key (ok base) w still =
        send_prepared-still base _ (prepare c m v k key (some f) base w).0
          (λ x. prepare-same key base w x (still base refl))
        ∙ prepare-world key base w

    -- Where it leaves the object that is read as it is, no patch is sent: all that is done is
    -- the read.
    pub patch_if_exists-still :
        (obj : Object k) (w : W)
        → ((base : Object k)
            → (c.get k (c.object_key k obj) w).0 ≡ ok base
            → (f base (c.get k (c.object_key k obj) w).1).0 ≡ ok base)
        → (patch_if_exists c m v k obj (some f) w).1 ≡ (c.get k (c.object_key k obj) w).1
    unfolding patch_if_exists
    patch_if_exists-still obj w still =
        found-world (c.object_key k obj) (c.get k (c.object_key k obj) w).0
          (c.get k (c.object_key k obj) w).1 still
