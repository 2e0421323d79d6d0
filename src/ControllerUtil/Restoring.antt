-- ===== src/ControllerUtil/Restoring.antt =====
-- What is relied on of the conversion to unstructured form and back, and the status that
-- `PatchIfExists` of pkg/controllerutil/controllerutil.go sets again after a first patch.
use multi_tenants.Base.{
  if◌then◌else◌, ap, ◌≢◌, ◌≡◌, refl, sym, ◌∙◌, Option, none, some, Result, ok, err,
}
use multi_tenants.Api.{Kind, Object, Machinery}
use multi_tenants.Client.{Client, Converter}
use multi_tenants.ControllerUtil.Patch.{Split, split, is_found}
use multi_tenants.ControllerUtil.Forms.{IsForm, split_status, split_form, split-IsForm}
use multi_tenants.ControllerUtil.PatchTable.{with_status}

-- The unstructured forms of the objects of a kind: a status that is set is found, apart from the
-- rest; whether there is one depends on the kind; the form is read back from what it is made of;
-- and what is not the status has the key.
pub record IsLawfulConverter {W : Type 0} (c : Client W) (v : Converter) (k : Kind) : Type 0 where
  pub set-nested :
      (u u' : v.Unstructured) (x : v.Value)
      → v.set_status u (some x) ≡ ok u'
      → (v.nested_status u' ≡ ok (some x)) × (v.remove_status u' ≡ v.remove_status u)
  pub found-by_kind :
      (a b : Object k) (u u' : v.Unstructured) (x y : Option v.Value)
      → v.to_unstructured k a ≡ ok u
      → v.to_unstructured k b ≡ ok u'
      → v.nested_status u ≡ ok x
      → v.nested_status u' ≡ ok y
      → is_found x ≡ is_found y
  -- `a` is made of `o` with the status of `b`.
  pub to-from :
      (o b a : Object k) (u u' s : v.Unstructured) (x : v.Value)
      → v.to_unstructured k o ≡ ok u
      → v.to_unstructured k b ≡ ok s
      → v.nested_status s ≡ ok (some x)
      → v.set_status u (some x) ≡ ok u'
      → v.from_unstructured k u' o ≡ ok a
      → v.to_unstructured k a ≡ ok u'
  pub form-key :
      (a b : Object k) (u u' : v.Unstructured)
      → v.to_unstructured k a ≡ ok u
      → v.to_unstructured k b ≡ ok u'
      → v.remove_status u ≡ v.remove_status u'
      → c.object_key k a ≡ c.object_key k b

module _ {W : Type 0} (c : Client W) (m : Machinery) (v : Converter) (k : Kind)
    (lawful : IsLawfulConverter c v k) where
  -- Both are found or neither is.
  same_found :
      (a b : Object k) (x y : Split v)
      → IsForm v k a x
      → IsForm v k b y
      → is_found x.1 ≡ is_found y.1
  same_found a b x y sa sb =
      lawful.found-by_kind a b sa.whole sb.whole x.1 y.1 sa.made sb.made sa.nested sb.nested

  found_value :
      (x y : Option v.Value) → is_found x ≡ is_found y → x ≢ y → (z : v.Value) × (y ≡ some z)
  found_value none none e differ = absurd (differ refl)
  found_value (some a) none e differ = cc
  found_value x (some b) e differ = (b, refl)

  split-whole :
      (o : Object k) (u : v.Unstructured) (x : v.Value)
      → v.to_unstructured k o ≡ ok u
      → v.nested_status u ≡ ok (some x)
      → split v k o ≡ ok (v.remove_status u, some x)
  unfolding split
  split-whole o u x made nested = ap (split_form v k) made ∙ ap (split_status v k u) nested

  set_form :
      (s o' b : Object k) (now other : Split v) (z : v.Value)
      → IsForm v k s now
      → IsForm v k b other
      → other.1 ≡ some z
      → with_status c m v k s (some z) ≡ ok o'
      → (split v k o' ≡ ok (now.0, some z)) × (c.object_key k o' ≡ c.object_key k s)
  set_form s o' b now other z ss sb e h = by_set (v.set_status ss.whole (some z)) refl (
      ap
        (λ r. elim r [
          | err e ↦ err e
          | ok u ↦ elim (v.set_status u (some z)) [
            | err e ↦ err e
            | ok u' ↦ v.from_unstructured k u' s
          ]
        ])
        (sym ss.made)
      ∙ h)
    where
      by_set :
          (r : Result v.Unstructured)
          → v.set_status ss.whole (some z) ≡ r
          → (elim r [ err e ↦ err e | ok u' ↦ v.from_unstructured k u' s ]) ≡ ok o'
          → (split v k o' ≡ ok (now.0, some z)) × (c.object_key k o' ≡ c.object_key k s)
      by_set (err e) set q = cc
      by_set (ok u') set q =
          let (nested, rest) = lawful.set-nested ss.whole u' z set in
          let made =
            lawful.to-from s b o' ss.whole u' sb.whole z ss.made sb.made
              (sb.nested ∙ ap (λ y. ok y) e) set q in
          let found = same_found s b now other ss sb ∙ ap is_found e in
          let kept : now.0 ≡ v.remove_status ss.whole =
            ss.rest ∙ ap (λ y. if y then v.remove_status ss.whole else ss.whole) found in
          (
            split-whole o' u' z made nested ∙ ap (λ y. ok (y, some z)) (rest ∙ sym kept),
            lawful.form-key o' s u' ss.whole made ss.made rest,
          )

  pub with_status-ok :
      (s o' base b : Object k) (now before after : Split v)
      → split v k s ≡ ok now
      → split v k base ≡ ok before
      → split v k b ≡ ok after
      → before.1 ≢ after.1
      → with_status c m v k s after.1 ≡ ok o'
      → (split v k o' ≡ ok (now.0, after.1)) × (c.object_key k o' ≡ c.object_key k s)
  with_status-ok s o' base b now before after ss sbase sb differ h =
      let first = split-IsForm v k base before sbase in
      let last = split-IsForm v k b after sb in
      let (z, e) =
        found_value before.1 after.1 (same_found base b before after first last) differ in
      let (form, key) =
        set_form s o' b now after z (split-IsForm v k s now ss) last e
          (ap (λ y. with_status c m v k s y) (sym e) ∙ h) in
      (form ∙ ap (λ y. ok (now.0, y)) (sym e), key)
