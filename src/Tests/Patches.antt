-- ===== src/Tests/Patches.antt =====
-- Patches of a tenant at the API server of the examples.
use multi_tenants.Base.{◌≡◌, refl, sym, ◌∙◌, ap, subst, none, some, Option, Result, ok}
use multi_tenants.Api.{Kind, ObjectKey, Tenant}
use multi_tenants.ControllerUtil.Patch.{Split, split, is_found}
use multi_tenants.ControllerUtil.Forms.{split-IsForm, IsForm-split}
use multi_tenants.ControllerUtil.Storing.{IsLawfulPatch}
use multi_tenants.ControllerUtil.Restoring.{IsLawfulConverter}
use multi_tenants.Tests.Server.{
  Host, read, read-write_same, write, patch_status_in, key_of, test_client,
}
use multi_tenants.Tests.Setting.{test_converter, set_fields}

abbrev Form : Type 0
Form = Split test_converter

form_inj : (a b : Form) → ◌≡◌ {A = Result Form} (ok a) (ok b) → a ≡ b
form_inj a b h = cc

tenant_inj : (a b : Tenant) → ◌≡◌ {A = Result Tenant} (ok a) (ok b) → a ≡ b
tenant_inj a b h = cc

abbrev form_of : Tenant → Form
unfolding test_converter
form_of o = (((key_of Kind.tenant o, o.object_meta.finalizers), none), some o.status.phase)

split-form : (o : Tenant) → split test_converter Kind.tenant o ≡ ok (form_of o)
unfolding split form_of test_converter
split-form o = refl

-- The form that `split` gives is that of the object.
is_form : (o : Tenant) (x : Form) → split test_converter Kind.tenant o ≡ ok x → x ≡ form_of o
is_form o x h = form_inj x (form_of o) (sym h ∙ split-form o)

-- Two parts of forms, as a form.
mixed :
    (o b : Tenant) (x y : Form)
    → split test_converter Kind.tenant o ≡ ok x
    → split test_converter Kind.tenant b ≡ ok y
    → ◌≡◌ {A = Result Form} (ok ((form_of o).0, (form_of b).1)) (ok (x.0, y.1))
mixed o b x y so sb =
    ap (λ z. ok (z.0, (form_of b).1)) (sym (is_form o x so))
    ∙ ap (λ z. ok (x.0, z.1)) (sym (is_form b y sb))

patch-ok :
    (base o r : Tenant) (before after : Form) (w : Host)
    → split test_converter Kind.tenant base ≡ ok before
    → split test_converter Kind.tenant o ≡ ok after
    → (test_client.patch Kind.tenant base o w).0 ≡ ok r
    → (read Kind.tenant (key_of Kind.tenant o) (test_client.patch Kind.tenant base o w).1 ≡ some r)
      × (split test_converter Kind.tenant r ≡ ok (after.0, before.1))
      × (key_of Kind.tenant r ≡ key_of Kind.tenant o)
unfolding test_client test_converter form_of split
patch-ok base o r before after w sb so h =
    let stored = record o { status = base.status } in
    subst
      (λ x.
        (read Kind.tenant (key_of Kind.tenant o) (test_client.patch Kind.tenant base o w).1
          ≡ some x)
        × (split test_converter Kind.tenant x ≡ ok (after.0, before.1))
        × (key_of Kind.tenant x ≡ key_of Kind.tenant o))
      (tenant_inj stored r h)
      (
        read-write_same Kind.tenant (key_of Kind.tenant o) stored w,
        mixed o base after before so sb,
        refl,
      )

patch_status-ok :
    (key : ObjectKey) (held o r : Tenant) (now after : Form) (w : Host)
    → key_of Kind.tenant o ≡ key
    → read Kind.tenant key w ≡ some held
    → split test_converter Kind.tenant held ≡ ok now
    → split test_converter Kind.tenant o ≡ ok after
    → (patch_status_in Kind.tenant (w.tenants (key_of Kind.tenant o)) o w).0 ≡ ok r
    → (read Kind.tenant key (patch_status_in Kind.tenant (w.tenants (key_of Kind.tenant o)) o w).1
        ≡ some r)
      × (split test_converter Kind.tenant r ≡ ok (now.0, after.1))
unfolding test_converter form_of split
patch_status-ok key held o r now after w same there sn so h =
    let stored = record held { status = o.status } in
    let there' = subst (λ y. w.tenants y ≡ some held) (sym same) there in
    let e =
      tenant_inj stored r (ap (λ x. (patch_status_in Kind.tenant x o w).0) (sym there') ∙ h) in
    (
      ap (λ x. read Kind.tenant key (patch_status_in Kind.tenant x o w).1) there'
          ∙ ap (λ y. read Kind.tenant y (write Kind.tenant (key_of Kind.tenant o) stored w))
              (sym same)
          ∙ read-write_same Kind.tenant (key_of Kind.tenant o) stored w
          ∙ ap some e,
      ap (λ x. split test_converter Kind.tenant x) (sym e) ∙ mixed held o now after sn so,
    )

abbrev Plain : Type 0
Plain = test_converter.Unstructured

plain_of : Tenant → Plain
unfolding test_converter
plain_of o = ((key_of Kind.tenant o, o.object_meta.finalizers), some o.status.phase)

plain_inj : (a b : Plain) → ◌≡◌ {A = Result Plain} (ok a) (ok b) → a ≡ b
plain_inj a b h = cc

some_inj : (a b : test_converter.Value) → some a ≡ some b → a ≡ b
some_inj a b h = cc

status_inj :
    (x y : Option test_converter.Value)
    → ◌≡◌ {A = Result (Option test_converter.Value)} (ok x) (ok y)
    → x ≡ y
status_inj x y h = cc

test_converter-IsLawfulConverter : IsLawfulConverter test_client test_converter Kind.tenant
unfolding test_converter test_client plain_of
test_converter-IsLawfulConverter = record {
  set-nested = λ u u' x h.
      let e = plain_inj (u.0, some x) u' h in
      (ap (λ y. ok y.1) (sym e), ap (λ y. (y.0, none)) (sym e));
  found-by_kind = λ a b u u' x y ha hb hx hy.
      let ex = status_inj u.1 x hx in
      let ey = status_inj u'.1 y hy in
      sym (ap is_found ex)
      ∙ sym (ap (λ z. is_found z.1) (plain_inj (plain_of a) u ha))
      ∙ ap (λ z. is_found z.1) (plain_inj (plain_of b) u' hb)
      ∙ ap is_found ey;
  to-from = λ o b a u u' s x ho hb hs set from.
      let eu = plain_inj (plain_of o) u ho in
      let eu' = plain_inj (u.0, some x) u' set in
      let whole = ap (λ z. (z.0, some x)) eu ∙ eu' in
      let made =
        tenant_inj (record o { status = record (o.status) { phase = x } }) a
          (ap (λ z. ok (set_fields Kind.tenant z o)) eu' ∙ from) in
      ap (λ z. ok (plain_of z)) (sym made) ∙ ap (λ z. ok z) whole;
  form-key = λ a b u u' ha hb same.
      ap (λ z. z.0.0) (plain_inj (plain_of a) u ha)
      ∙ ap (λ z. z.0.0) same
      ∙ sym (ap (λ z. z.0.0) (plain_inj (plain_of b) u' hb));
}

pub test_client-IsLawfulPatch : IsLawfulPatch test_client test_converter read Kind.tenant
unfolding test_client
test_client-IsLawfulPatch = record {
  patch-ok = λ base o r before after w held form_base form_o live h.
      let (held', form, key) =
        patch-ok base o r before after w
          (IsForm-split test_converter Kind.tenant base before form_base)
          (IsForm-split test_converter Kind.tenant o after form_o) h in
      (held', split-IsForm test_converter Kind.tenant r (after.0, before.1) form, key);
  patch_status-ok = λ key base held o r before now after w same there fb fn q fo h.
      let (held', form) =
        patch_status-ok key held o r now after w same there
          (IsForm-split test_converter Kind.tenant held now fn)
          (IsForm-split test_converter Kind.tenant o after fo) h in
      (held', split-IsForm test_converter Kind.tenant r (now.0, after.1) form);
  converter = test_converter-IsLawfulConverter;
}
