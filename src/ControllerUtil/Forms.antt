-- ===== src/ControllerUtil/Forms.antt =====
-- The unstructured forms of objects, as `PatchIfExists` of pkg/controllerutil/controllerutil.go
-- splits them.
use multi_tenants.Base.{if◌then◌else◌, ap, ◌≡◌, ◌∙◌, sym, refl, Option, Result, ok, err}
use multi_tenants.Api.{Kind, Object}
use multi_tenants.Client.{Converter}
use multi_tenants.ControllerUtil.Patch.{Split, split, is_found}

-- The unstructured form of an object, its status apart: the rest is without the status.
pub record IsForm (v : Converter) (k : Kind) (o : Object k) (form : v.Unstructured × Option v.Value)
    : Type 0 where
  pub whole : v.Unstructured
  pub made : v.to_unstructured k o ≡ ok whole
  pub nested : v.nested_status whole ≡ ok form.1
  pub rest : form.0 ≡ (if is_found form.1 then v.remove_status whole else whole)

module _ (v : Converter) (k : Kind) where
  -- `split`, from the status that is read in the unstructured form on, and from that form on.
  abbrev pub split_status : v.Unstructured → Result (Option v.Value) → Result (Split v)
  split_status u r = elim r [
    | err e ↦ err e
    | ok status ↦ ok (if is_found status then v.remove_status u else u, status)
  ]

  abbrev pub split_form : Result v.Unstructured → Result (Split v)
  split_form r = elim r [ err e ↦ err e | ok u ↦ split_status u (v.nested_status u) ]

  pub split-IsForm : (o : Object k) (form : Split v) → split v k o ≡ ok form → IsForm v k o form
  unfolding split
  split-IsForm o (a, x) h = by_form (v.to_unstructured k o) refl h
    where
      by_status :
          (u : v.Unstructured) (r : Result (Option v.Value))
          → v.to_unstructured k o ≡ ok u
          → v.nested_status u ≡ r
          → split_status u r ≡ ok (a, x)
          → IsForm v k o (a, x)
      by_status u (err e) made nested q = cc
      by_status u (ok status) made nested q =
          let same : status ≡ x = cc in
          let first : a ≡ (if is_found status then v.remove_status u else u) = cc in
          record {
            whole = u;
            made = made;
            nested = nested ∙ ap (λ y. ok y) same;
            rest = first ∙ ap (λ y. if is_found y then v.remove_status u else u) same;
          }

      by_form :
          (r : Result v.Unstructured)
          → v.to_unstructured k o ≡ r
          → split_form r ≡ ok (a, x)
          → IsForm v k o (a, x)
      by_form (err e) made q = cc
      by_form (ok u) made q = by_status u (v.nested_status u) made refl q

  pub IsForm-split : (o : Object k) (form : Split v) → IsForm v k o form → split v k o ≡ ok form
  unfolding split
  IsForm-split o form h =
      ap split_form h.made
      ∙ ap (split_status h.whole) h.nested
      ∙ ap (λ y. ok (y, form.1)) (sym h.rest)
