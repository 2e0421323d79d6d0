-- ===== src/Controllers/Failing.antt =====
-- What a failure in the loop over the phases of `reconcileNormal` (tenant_controller.go) leaves.
use multi_tenants.Base.{
  String, Bool, true, false, ◌||◌, ◌≡◌, refl, ◌∙◌, ap, Option, none, some, Error, ok, err, ◌==◌,
  string_eq, if◌then◌else◌,
}
use multi_tenants.Api.{
  Time, Tenant, Condition, get_conditions, tenant_condition_provisioned, tenant_condition_ready,
  condition_false, condition_true,
}
use multi_tenants.Conditions.{find, get, has, is_true, is_false}
use multi_tenants.Conditions.TenantConditions.{tenant_setter}
use multi_tenants.Conditions.Reading.{IsUnique}
use multi_tenants.Client.Server.{Lookup}
use multi_tenants.Controllers.Setup.{Platform, TenantController}
use multi_tenants.Controllers.PhaseLaws.{
  is_deleting, expected_phase, has_status, reconcile_phase-priority,
}
use multi_tenants.Controllers.Normal.{
  ensure_namespace, needs_provision, provision, reconcile_normal,
}
use multi_tenants.Controllers.Reconcile.{tenant_finalizer, handle_tenant}
use multi_tenants.Controllers.Footprint.{IsLawfulPlatform}
use multi_tenants.Controllers.Marks.{marked-object_meta, is_false-marked, is_true-marked}
use multi_tenants.Controllers.Handling.{mark_failed}
use multi_tenants.Controllers.Lifecycle.{with_phase, holds, pass, handle_tenant-normal}
use multi_tenants.Controllers.Outcomes.{
  after_namespace-ok, after_namespace-needs, end_provision-err,
}

-- The phase of a tenant that is not deleted and is marked Ready neither way.
pub unready_phase :
    (u : Tenant)
    → is_deleting u.object_meta.deletion_timestamp ≡ false
    → is_true u tenant_condition_ready ≡ false
    → is_false u tenant_condition_ready ≡ false
    → expected_phase u ≡ (
        if is_true u tenant_condition_provisioned
        then "Provisioned"
        else if is_false u tenant_condition_provisioned
        then "Provisioning"
        else if u.status.phase == ""
        then "Pending"
        else u.status.phase)
unfolding expected_phase is_true is_false get get_conditions tenant_setter
unready_phase u live r r' =
    rw
      (
        expected_phase,
        live,
        is_status condition_true (find u.status.conditions tenant_condition_ready) ∙ r,
        is_status condition_false (find u.status.conditions tenant_condition_ready) ∙ r',
        is_status condition_true (find u.status.conditions tenant_condition_provisioned),
        is_status condition_false (find u.status.conditions tenant_condition_provisioned),
      )
      refl
  where
    is_status :
        (s : String) (o : Option Condition)
        → has_status o s ≡ elim o [ some x ↦ x.status == s | none ↦ false ]
    is_status s none = refl
    is_status s (some x) = refl

module _ {W : Type 0} (p : Platform W) (c : TenantController) (lookup : Lookup W)
    (lawful : IsLawfulPlatform p lookup) where
  failed_end :
      (t : Tenant) (w : W) (e : Error)
      → (ensure_namespace p c t w).0 ≡ ok tt
      → needs_provision p c t ≡ true
      → (provision p c t (ensure_namespace p c t w).1).0 ≡ err e
      → (time : Time) × ((reconcile_normal p c t w).tenant ≡ mark_failed p c lookup lawful time t)
        × ((reconcile_normal p c t w).result ≡ err e)
  failed_end t w e ready needs failed =
      let end =
        after_namespace-ok p c lookup lawful t w ready
        ∙ after_namespace-needs p c lookup lawful t _ needs
        ∙ end_provision-err p c lookup lawful t _ e failed in
      (_, ap (λ x. x.tenant) end, ap (λ x. x.result) end)

  module _ (time : Time) (t : Tenant) (unique : IsUnique (get_conditions t)) where
    abbrev failed : Tenant
    failed = mark_failed p c lookup lawful time t

    now_true :
        (type : String)
        → is_true failed type
          ≡ (if tenant_condition_provisioned == type then false else is_true t type)
    now_true =
        is_true-marked p lookup lawful false time t tenant_condition_provisioned "Failed"
          "Failed to handle phase" unique

    now_false :
        (type : String)
        → is_false failed type
          ≡ (if tenant_condition_provisioned == type then true else is_false t type)
    now_false =
        is_false-marked p lookup lawful false time t tenant_condition_provisioned "Failed"
          "Failed to handle phase" unique

    failed-phase :
        is_deleting t.object_meta.deletion_timestamp ≡ false
        → is_true t tenant_condition_ready ≡ false
        → is_false t tenant_condition_ready ≡ false
        → expected_phase failed ≡ "Provisioning"
    unfolding string_eq
    failed-phase live r r' =
        unready_phase failed
          (ap (λ o. is_deleting o.deletion_timestamp)
              (marked-object_meta p lookup lawful false time t tenant_condition_provisioned "Failed"
                "Failed to handle phase")
            ∙ live)
          (now_true tenant_condition_ready ∙ r) (now_false tenant_condition_ready ∙ r')
        ∙ rw (now_true tenant_condition_provisioned, now_false tenant_condition_provisioned) refl

    failed-needs : (phase : String) → needs_provision p c (with_phase phase failed) ≡ true
    unfolding needs_provision has is_false get get_conditions tenant_setter string_eq
    failed-needs phase = needs_false failed (now_false tenant_condition_provisioned)
      where
        or_true : (b c : Bool) → c ≡ true → (b || c) ≡ true
        or_true true c e = refl
        or_true false c e = e

        needs_false :
            (u : Tenant)
            → is_false u tenant_condition_provisioned ≡ true
            → needs_provision p c u ≡ true
        needs_false u e = or_true _ _ e

  -- When the namespace is there and a phase of the provisioning fails for a tenant that has the
  -- finalizer, is not deleted, needs it, and is marked neither Ready nor not Ready: the handler
  -- returns that error, the tenant shows the phase Provisioning, and it still needs to be
  -- provisioned, so the next pass tries again. No condition type stands twice before. The code
  -- outside behaves as documented.
  pub provision_failure :
      (t : Tenant) (w : W) (e : Error)
      → holds p c lawful.machinery t tenant_finalizer ≡ true
      → is_deleting t.object_meta.deletion_timestamp ≡ false
      → IsUnique (get_conditions t)
      → (ensure_namespace p c t w).0 ≡ ok tt
      → needs_provision p c t ≡ true
      → (provision p c t (ensure_namespace p c t w).1).0 ≡ err e
      → is_true t tenant_condition_ready ≡ false
      → is_false t tenant_condition_ready ≡ false
      → ((handle_tenant p c t w).result ≡ err e)
        × ((pass p c lawful.machinery t w).status.phase ≡ "Provisioning")
        × (needs_provision p c (pass p c lawful.machinery t w) ≡ true)
  provision_failure t w e held live unique ready needs failed r r' =
      let (time, marked, result) = failed_end t w e ready needs failed in
      let run = handle_tenant-normal p c lawful.machinery t w held live in
      let sent =
        reconcile_phase-priority p.machinery lawful.machinery (handle_tenant p c t w).tenant
        ∙ ap (λ u. with_phase (expected_phase u) u) (ap (λ x. x.tenant) run ∙ marked) in
      (
        ap (λ x. x.result) run ∙ result,
        ap (λ u. u.status.phase) sent ∙ failed-phase time t unique live r r',
        ap (λ u. needs_provision p c u) sent ∙ failed-needs time t unique _,
      )
