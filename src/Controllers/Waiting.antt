-- ===== src/Controllers/Waiting.antt =====
-- What `reconcileNormal` (tenant_controller.go) leaves when the deployments are not ready yet.
use multi_tenants.Base.{
  String, true, false, ◌≡◌, refl, sym, ◌∙◌, ap, subst, Result, ok, err, ◌==◌, string_eq,
  if◌then◌else◌,
}
use multi_tenants.Api.{
  Time, Tenant, get_conditions, tenant_condition_provisioned, tenant_condition_ready,
}
use multi_tenants.Conditions.{get, has, is_true, is_false}
use multi_tenants.Conditions.TenantConditions.{tenant_setter}
use multi_tenants.Conditions.Reading.{IsUnique}
use multi_tenants.Client.Server.{Lookup}
use multi_tenants.Controllers.Setup.{Platform, TenantController}
use multi_tenants.Controllers.PhaseLaws.{is_deleting, expected_phase, reconcile_phase-priority}
use multi_tenants.Controllers.Normal.{
  ReconcileResult, ensure_namespace, needs_provision, provision, check_ready, end_normal,
  check_and_end, reconcile_normal,
}
use multi_tenants.Controllers.Reconcile.{tenant_finalizer, handle_tenant}
use multi_tenants.Controllers.Footprint.{IsLawfulPlatform}
use multi_tenants.Controllers.Marks.{marked-object_meta, is_false-marked, is_true-marked}
use multi_tenants.Controllers.Handling.{mark_provisioned, needs_provision-mark}
use multi_tenants.Controllers.Lifecycle.{with_phase, holds, pass, handle_tenant-normal}
use multi_tenants.Controllers.Outcomes.{
  after_namespace-ok, after_namespace-needs, end_provision-ok, check_ready-meta,
}
use multi_tenants.Controllers.Failing.{unready_phase}

-- The checks failed, or say to run again.
abbrev pub IsUnready : Result ReconcileResult → Type 0
IsUnready (err e) = Unit
IsUnready (ok r) = r.requeue ≡ true

module _ {W : Type 0} (p : Platform W) (c : TenantController) (lookup : Lookup W)
    (lawful : IsLawfulPlatform p lookup) where
  end_unready :
      (u : Tenant) (r : Result ReconcileResult) (w : W)
      → IsUnready r
      → end_normal p c u (r, w) ≡ record { tenant = u; result = r; world = w }
  unfolding end_normal
  end_unready u (err e) w h = refl
  end_unready u (ok r) w h = rw h refl

  check_and_end-unready :
      (u : Tenant) (w : W)
      → IsUnready (check_ready p c u w).0
      → check_and_end p c u w
        ≡ record { tenant = u; result = (check_ready p c u w).0; world = (check_ready p c u w).1 }
  unfolding check_and_end
  check_and_end-unready u w h = end_unready u (check_ready p c u w).0 (check_ready p c u w).1 h

  module _ (t : Tenant) (w : W) where
    -- The world after the phases and the reading of the clock, and the tenant then.
    abbrev provisioned_world : W
    provisioned_world = (provision p c t (ensure_namespace p c t w).1).1

    abbrev now : Time
    now = (p.crypto.now provisioned_world).0

    abbrev pub checked_world : W
    checked_world = (p.crypto.now provisioned_world).1

    abbrev provisioned : Tenant
    provisioned = mark_provisioned p c lookup lawful now t

    meta : provisioned.object_meta ≡ t.object_meta
    meta =
        marked-object_meta p lookup lawful true now t tenant_condition_provisioned "Success"
          "Success to provision"

    same_check : check_ready p c provisioned checked_world ≡ check_ready p c t checked_world
    same_check = check_ready-meta p c lookup lawful t provisioned checked_world meta

    waiting_end :
        (ensure_namespace p c t w).0 ≡ ok tt
        → needs_provision p c t ≡ true
        → (provision p c t (ensure_namespace p c t w).1).0 ≡ ok tt
        → IsUnready (check_ready p c t checked_world).0
        → ((reconcile_normal p c t w).tenant ≡ provisioned)
          × ((reconcile_normal p c t w).result ≡ (check_ready p c t checked_world).0)
    waiting_end there needs done unready =
        let end =
          after_namespace-ok p c lookup lawful t w there
          ∙ after_namespace-needs p c lookup lawful t _ needs
          ∙ end_provision-ok p c lookup lawful t _ done
          ∙ check_and_end-unready provisioned checked_world
              (subst (λ x. IsUnready x.0) (sym same_check) unready) in
        (ap (λ x. x.tenant) end, ap (λ x. x.result) end ∙ ap (λ x. x.0) same_check)

    provisioned-phase :
        IsUnique (get_conditions t)
        → is_deleting t.object_meta.deletion_timestamp ≡ false
        → is_true t tenant_condition_ready ≡ false
        → is_false t tenant_condition_ready ≡ false
        → expected_phase provisioned ≡ "Provisioned"
    unfolding string_eq
    provisioned-phase unique live r r' =
        unready_phase provisioned (ap (λ o. is_deleting o.deletion_timestamp) meta ∙ live)
          (now_true tenant_condition_ready ∙ r) (now_false tenant_condition_ready ∙ r')
        ∙ rw (now_true tenant_condition_provisioned) refl
      where
        now_true :
            (type : String)
            → is_true provisioned type
              ≡ (if tenant_condition_provisioned == type then true else is_true t type)
        now_true =
            is_true-marked p lookup lawful true now t tenant_condition_provisioned "Success"
              "Success to provision" unique

        now_false :
            (type : String)
            → is_false provisioned type
              ≡ (if tenant_condition_provisioned == type then false else is_false t type)
        now_false =
            is_false-marked p lookup lawful true now t tenant_condition_provisioned "Success"
              "Success to provision" unique

    needs-phase :
        (phase : String) (u : Tenant)
        → needs_provision p c (with_phase phase u) ≡ needs_provision p c u
    unfolding needs_provision has is_false get get_conditions tenant_setter
    needs-phase phase u = refl

    -- When the namespace is there and the provisioning succeeds, but the checks of the
    -- deployments fail or say to run again, for a tenant that has the finalizer, is not deleted,
    -- needs to be provisioned, and is marked neither Ready nor not Ready: the handler returns
    -- what the checks return, the tenant shows the phase Provisioned, and it does not need to be
    -- provisioned again, so the next pass only checks. No condition type stands twice before.
    -- The code outside behaves as documented.
    pub waiting_pass :
        holds p c lawful.machinery t tenant_finalizer ≡ true
        → is_deleting t.object_meta.deletion_timestamp ≡ false
        → IsUnique (get_conditions t)
        → (ensure_namespace p c t w).0 ≡ ok tt
        → needs_provision p c t ≡ true
        → (provision p c t (ensure_namespace p c t w).1).0 ≡ ok tt
        → IsUnready (check_ready p c t checked_world).0
        → is_true t tenant_condition_ready ≡ false
        → is_false t tenant_condition_ready ≡ false
        → ((handle_tenant p c t w).result ≡ (check_ready p c t checked_world).0)
          × ((pass p c lawful.machinery t w).status.phase ≡ "Provisioned")
          × (needs_provision p c (pass p c lawful.machinery t w) ≡ false)
    waiting_pass held live unique there needs done unready r r' =
        let (marked, result) = waiting_end there needs done unready in
        let run = handle_tenant-normal p c lawful.machinery t w held live in
        let sent =
          reconcile_phase-priority p.machinery lawful.machinery (handle_tenant p c t w).tenant
          ∙ ap (λ u. with_phase (expected_phase u) u) (ap (λ x. x.tenant) run ∙ marked) in
        (
          ap (λ x. x.result) run ∙ result,
          ap (λ u. u.status.phase) sent ∙ provisioned-phase unique live r r',
          ap (λ u. needs_provision p c u) sent
              ∙ needs-phase _ provisioned
              ∙ needs_provision-mark p c lookup lawful now t unique,
        )
