-- ===== src/Controllers/Stored.antt =====
-- What the API server holds of a tenant after a run of `Reconcile` (tenant_controller.go).
use multi_tenants.Base.{
  String, ◌≡◌, refl, sym, ◌∙◌, ap, subst, inl, inr, Bool, true, false, Option, none, some, Result,
  Error, ok, err, pure, attempt, if◌then◌else◌,
}
use multi_tenants.Api.{Time, Kind, ObjectKey, Tenant, get_conditions}
use multi_tenants.Conditions.Reading.{IsUnique}
use multi_tenants.Client.Server.{Lookup}
use multi_tenants.ControllerUtil.{OperationResult}
use multi_tenants.ControllerUtil.Patch.{Operation, split, patch_if_found, patch_if_exists}
use multi_tenants.ControllerUtil.Forms.{IsForm, split-IsForm}
use multi_tenants.ControllerUtil.Storing.{IsLawfulPatch, Stores}
use multi_tenants.ControllerUtil.Stored.{patch_if_exists-Stores}
use multi_tenants.Controllers.Setup.{Platform, TenantController}
use multi_tenants.Controllers.Normal.{ReconcileResult, Handled}
use multi_tenants.Controllers.Reconcile.{
  handle_tenant, copy_fields, finish_reconcile, on_tenant, reconcile,
}
use multi_tenants.Controllers.Footprint.{IsLawfulPlatform, reconcile_normal-SlotStep}
use multi_tenants.Controllers.Run.{handle_tenant-world}
use multi_tenants.Controllers.Marks.{marked, marked-object_meta, marked-IsOrdered}
use multi_tenants.Controllers.Ahead.{constant-OwnedKeeps}
use multi_tenants.Controllers.Lifecycle.{pass}
use multi_tenants.Controllers.Passing.{IsPassed, pass-Holds}
use multi_tenants.Controllers.Deferred.{
  copied, deferred_patch, finish_reconcile-ok, finish_reconcile-world,
}

module _ {W : Type 0} (p : Platform W) (c : TenantController) (lookup : Lookup W)
    (lawful : IsLawfulPlatform p lookup) where
  -- A tenant under the same key.
  record IsSame (t u : Tenant) : Type 0 where
    unique : IsUnique (get_conditions u)
    name : u.object_meta.name ≡ t.object_meta.name
    namespace : u.object_meta.namespace ≡ t.object_meta.namespace

  IsSame-marked :
      (b : Bool) (now : Time) (t u : Tenant) (type reason message : String)
      → IsSame t u
      → IsSame t (marked p lookup lawful b now u type reason message)
  IsSame-marked b now t u type reason message h =
      let same = marked-object_meta p lookup lawful b now u type reason message in
      record {
        unique = (marked-IsOrdered p lookup lawful b now u type reason message h.unique).1;
        name = ap (λ o. o.name) same ∙ h.name;
        namespace = ap (λ o. o.namespace) same ∙ h.namespace;
      }

  IsSame-IsPassed : (t : Tenant) → IsPassed p c lookup lawful t (λ u _. IsSame t u)
  unfolding get_conditions
  IsSame-IsPassed t = record {
    handled = record {
      calls = λ u. constant-OwnedKeeps p c lookup lawful t (IsSame t u);
      failed = λ now w _ h. IsSame-marked false now t t _ _ _ h;
      provisioned = λ now w _ _ h. IsSame-marked true now t t _ _ _ h;
      ready = λ now u w _ h. IsSame-marked true now t u _ _ _ h;
      unique = λ w h. h.unique;
    };
    finalizers = λ fs w h. record { unique = h.unique; name = h.name; namespace = h.namespace };
    phase = λ u w h. record { unique = h.unique; name = h.name; namespace = h.namespace };
  }

  -- The key of the tenant that is sent is that of the tenant that was read.
  pass-key :
      (t : Tenant) (w : W)
      → IsUnique (get_conditions t)
      → p.client.object_key Kind.tenant (pass p c lawful.machinery t w)
        ≡ p.client.object_key Kind.tenant t
  pass-key t w unique =
      let h =
        pass-Holds p c lookup lawful t (λ u _. IsSame t u) (IsSame-IsPassed t) w
          (record { unique = unique; name = refl; namespace = refl }) in
      lawful.client.object_key_lem Kind.tenant (pass p c lawful.machinery t w)
      ∙ ap (λ n. record { namespace = n; name = (pass p c lawful.machinery t w).object_meta.name })
          h.namespace
      ∙ ap (λ n. record { namespace = t.object_meta.namespace; name = n }) h.name
      ∙ sym (lawful.client.object_key_lem Kind.tenant t)

  -- The handler acts on no Tenant.
  handle_tenant-tenants :
      (t : Tenant) (w : W) (slot : ObjectKey)
      → lookup Kind.tenant slot (handle_tenant p c t w).world ≡ lookup Kind.tenant slot w
  handle_tenant-tenants t w slot = elim (handle_tenant-world p c t w) [
    | inl same ↦ ap (λ x. lookup Kind.tenant slot x) same
    | inr normal ↦
        ap (λ x. lookup Kind.tenant slot x) normal
        ∙ (elim (reconcile_normal-SlotStep p lookup lawful c t w Kind.tenant slot) [
          | inl same ↦ same
          | inr (_, (o, _, (scope, _))) ↦ absurd scope
        ])
  ]

  some_inj : (a b : Tenant) → ◌≡◌ {A = Option Tenant} (some a) (some b) → a ≡ b
  some_inj a b h = cc

  some_there : (t : Tenant) (o : Option Tenant) → o ≡ some t → o ≡ none → ⊥
  some_there t o h g = cc

  module _ (patch : IsLawfulPatch p.client p.converter lookup Kind.tenant) (key : ObjectKey)
      (t : Tenant) (w : W) (found : (p.client.get Kind.tenant key w).0 ≡ ok t)
      (keyed : p.client.object_key Kind.tenant t ≡ key) (unique : IsUnique (get_conditions t))
      (live : t.object_meta.deletion_timestamp ≡ none) where
    abbrev read_world : W
    read_world = (p.client.get Kind.tenant key w).1

    abbrev handled : Handled W
    handled = handle_tenant p c t read_world

    abbrev sent : Tenant
    sent = pass p c lawful.machinery t read_world

    -- The server holds the tenant that was read, with the fields of the one that is sent.
    abbrev pub IsStored : W → Type 0
    IsStored x =
        (form : p.converter.Unstructured × Option p.converter.Value) × (held : Tenant) × IsForm
          p.converter Kind.tenant (copied sent t) form
        × (lookup Kind.tenant key x ≡ some held)
        × IsForm p.converter Kind.tenant held form

    sent-key : p.client.object_key Kind.tenant sent ≡ key
    sent-key = pass-key t read_world unique ∙ keyed

    still_there : lookup Kind.tenant (p.client.object_key Kind.tenant sent) handled.world ≡ some t
    still_there =
        ap (λ slot. lookup Kind.tenant slot handled.world) sent-key
        ∙ handle_tenant-tenants t read_world key
        ∙ lawful.client.get-reads Kind.tenant Kind.tenant key key w
        ∙ lawful.client.get-found Kind.tenant key w t found

    missing-Stores :
        (b : Bool) (e : Error) (x : W)
        → (b ≡ true → ⊥)
        → (if◌then◌else◌ {A = Operation × W} b
            ((OperationResult.unchanged, none), x)
            ((OperationResult.unchanged, some e), x)).0.1
          ≡ none
        → ⊥
    missing-Stores true e x gone h = gone refl
    missing-Stores false e x gone h = cc

    deferred-Stores :
        (o : Result Tenant)
        → (p.client.get Kind.tenant (p.client.object_key Kind.tenant sent) handled.world).0 ≡ o
        → (deferred_patch p c handled).0.1 ≡ none
        → IsStored (deferred_patch p c handled).1
    unfolding copy_fields pure patch_if_exists patch_if_found
    deferred-Stores (ok base) again h =
        let same =
          some_inj base t
            (sym (lawful.client.get-found Kind.tenant _ handled.world base again) ∙ still_there) in
        let (form, (e, stores)) =
          patch_if_exists-Stores p.client p.machinery p.converter lookup Kind.tenant patch
            lawful.client (copy_fields p c sent) sent base (copied sent base) handled.world again
            refl (ap (λ x. x.object_meta.deletion_timestamp) same ∙ live) (λ b x. refl) h in
        let (stored, held, stored_form) =
          subst
            (λ slot.
              Stores p.client p.machinery p.converter lookup Kind.tenant patch slot form
                (deferred_patch p c handled).1)
            sent-key stores in
        (
          form,
          stored,
          split-IsForm p.converter Kind.tenant (copied sent t) form
              (ap (λ x. split p.converter Kind.tenant (copied sent x)) (sym same) ∙ e),
          held,
          split-IsForm p.converter Kind.tenant stored form stored_form,
        )
    deferred-Stores (err e) again h = absurd (
        missing-Stores (p.machinery.is_not_found e) e _
          (λ gone.
            some_there t _ still_there
              (lawful.client.get-missing Kind.tenant _ handled.world e again gone))
          (ap
              (λ o.
                (patch_if_found p.client p.machinery p.converter Kind.tenant
                  (p.client.object_key Kind.tenant sent) (some (copy_fields p c sent))
                  (
                    o,
                    (p.client.get Kind.tenant (p.client.object_key Kind.tenant sent)
                        handled.world).1,
                  )).0.1)
              (sym again)
            ∙ h))

    -- When a whole run of Reconcile on a tenant that is not deleted returns no error, the server
    -- holds, under the same key and in unstructured form, the tenant that was read with the
    -- finalizers, owner references, phase and conditions of the handler, the phase set from
    -- them: whichever of the two patches were sent. No condition type stands twice before; the
    -- server answers patches as documented and nobody else writes. The unstructured forms of
    -- Tenants obey the laws of the converter: a status that is set is found beside the same
    -- rest, and a form that is made of a Tenant and the status of another is read back whole.
    -- The code outside behaves as documented.
    pub reconcile-IsStored :
        (r : ReconcileResult) → (reconcile p c key w).0 ≡ ok r → IsStored (reconcile p c key w).1
    unfolding reconcile attempt finish_reconcile
    reconcile-IsStored r h =
        subst (λ o. (on_tenant p c o read_world).0 ≡ ok r → IsStored (on_tenant p c o read_world).1)
          (sym found)
          (λ q.
            subst IsStored (sym (finish_reconcile-world p c handled))
              (deferred-Stores _ refl (finish_reconcile-ok p c handled r q).1))
          h
