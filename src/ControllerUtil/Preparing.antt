-- ===== src/ControllerUtil/Preparing.antt =====
-- What `PatchIfExists` (pkg/controllerutil/controllerutil.go) has in hand when it comes to its
-- patches.
use multi_tenants.Base.{
  Keeps, Keeps-bind, Keeps-lift, Keeps-pure, pure, throw, lift, >>=-ok, Bool, true, false, ◌≡◌,
  refl, sym, ◌∙◌, ap, subst, some, Result, Error, ok, arith, ◌!=◌, option_eq, if◌then◌else◌,
}
use multi_tenants.Api.{Kind, Object, ObjectKey, ObjectKey_eq, Machinery}
use multi_tenants.Client.{Client, Converter}
use multi_tenants.ControllerUtil.{MutateFn, mutate, mutate_error}
use multi_tenants.ControllerUtil.Patch.{Split, split, prepare}
use multi_tenants.ControllerUtil.Creating.{mutate-Keeps}

module _ {W : Type 0} (c : Client W) (m : Machinery) (v : Converter) (k : Kind)
    (f : MutateFn W k) where
  guard-ok :
      (b : Bool) (e : Error) (o o' : Object k) (w : W)
      → ((if b then throw {W = W} e else pure o) w).0 ≡ ok o'
      → (b ≡ false) × (o ≡ o')
  unfolding throw pure
  guard-ok true e o o' w h = cc
  guard-ok false e o o' w h = (refl, cc)

  same_key : (a b : ObjectKey) → (a != b) ≡ false → a ≡ b
  same_key a b h = ground arith

  -- What is mutated is what the closure leaves, under the same key.
  pub mutate-ok :
      (key : ObjectKey) (base o : Object k) (w : W)
      → (mutate c m k f key base w).0 ≡ ok o
      → ((f base w).0 ≡ ok o) × (c.object_key k o ≡ key)
  unfolding mutate
  mutate-ok key base o w h =
      let (o', (done, rest)) = >>=-ok _ _ w o h in
      let (same, e) = guard-ok (key != c.object_key k o') mutate_error o' o _ rest in
      (
        done ∙ ap (λ x. ok x) e,
        ap (λ x. c.object_key k x) (sym e) ∙ sym (same_key key (c.object_key k o') same),
      )

  pub object_inj : (a b : Object k) → ◌≡◌ {A = Result (Object k)} (ok a) (ok b) → a ≡ b
  object_inj a b h = cc

  three_inj :
      (a b : Split v × Object k × Split v)
      → ◌≡◌ {A = Result (Split v × Object k × Split v)} (ok a) (ok b)
      → a ≡ b
  three_inj a b h = cc

  pub prepare-ok :
      (key : ObjectKey) (base : Object k) (w : W) (x : Split v × Object k × Split v)
      → (prepare c m v k key (some f) base w).0 ≡ ok x
      → (split v k base ≡ ok x.0)
        × ((mutate c m k f key base w).0 ≡ ok x.1)
        × (split v k x.1 ≡ ok x.2)
  unfolding prepare lift pure
  prepare-ok key base w x h =
      let (before, (e1, h1)) = >>=-ok (lift (split v k base)) _ w x h in
      let (o, (e2, h2)) = >>=-ok _ _ w x h1 in
      let (after, (e3, h3)) = >>=-ok _ _ _ x h2 in
      let same = three_inj (before, o, after) x h3 in
      (
        e1 ∙ ap (λ y. ok y.0) same,
        e2 ∙ ap (λ y. ok y.1) same,
        subst (λ y. split v k y.1 ≡ ok y.2) same e3,
      )

  -- Up to the patches the server holds what it held.
  pub prepare-Keeps :
      (key : ObjectKey) (base : Object k) (P : W → Type 0)
      → ((o : Object k) → Keeps P (f o))
      → Keeps P (prepare c m v k key (some f) base)
  unfolding prepare
  prepare-Keeps key base P mutates = Keeps-bind _ _ (Keeps-lift _) (λ before.
      Keeps-bind _ _ (mutate-Keeps c m k f P key base mutates)
        (λ obj. Keeps-bind _ _ (Keeps-lift _) (λ after. Keeps-pure _)))
