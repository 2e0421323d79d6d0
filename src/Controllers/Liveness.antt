-- ===== src/Controllers/Liveness.antt =====
-- How many passes of the reconciler (tenant_controller.go) a tenant takes to become Ready.
use multi_tenants.Base.{
  string_same, Bool, true, false, ◌≡◌, refl, sym, ◌∙◌, ap, subst, Option, none, some, ok, ◌==◌,
  string_eq, if◌then◌else◌,
}
use multi_tenants.Api.{
  Time, Tenant, Condition, get_conditions, tenant_condition_ready, condition_true,
}
use multi_tenants.Conditions.{find, get, is_true}
use multi_tenants.Conditions.TenantConditions.{tenant_setter}
use multi_tenants.Conditions.Reading.{IsUnique}
use multi_tenants.Client.Server.{Lookup}
use multi_tenants.Controllers.Setup.{Platform, TenantController}
use multi_tenants.Controllers.PhaseLaws.{
  is_deleting, expected_phase, has_status, reconcile_phase-priority,
}
use multi_tenants.Controllers.Normal.{no_requeue}
use multi_tenants.Controllers.Reconcile.{tenant_finalizer, handle_tenant}
use multi_tenants.Controllers.Footprint.{IsLawfulPlatform}
use multi_tenants.Controllers.Marks.{marked-object_meta, is_true-marked}
use multi_tenants.Controllers.Handling.{mark_ready}
use multi_tenants.Controllers.Lifecycle.{with_phase, holds, pass, handle_tenant-normal}
use multi_tenants.Controllers.Refinement.{added, added-held, handle_tenant-absent}
use multi_tenants.Controllers.Outcomes.{IsHealthy, healthy_end}

module _ {W : Type 0} (p : Platform W) (c : TenantController) (lookup : Lookup W)
    (lawful : IsLawfulPlatform p lookup) where
  abbrev deleting : Tenant → Bool
  deleting u = is_deleting u.object_meta.deletion_timestamp

  abbrev held : Tenant → Bool
  held u = holds p c lawful.machinery u tenant_finalizer

  abbrev next : Tenant → W → Tenant
  next t w = pass p c lawful.machinery t w

  pub ready_phase :
      (u : Tenant)
      → deleting u ≡ false
      → is_true u tenant_condition_ready ≡ true
      → expected_phase u ≡ "Ready"
  unfolding expected_phase is_true get get_conditions tenant_setter
  ready_phase u live h =
      rw (expected_phase, live, by_condition (find u.status.conditions tenant_condition_ready) h)
        refl
    where
      by_condition :
          (o : Option Condition)
          → elim o [ some x ↦ x.status == condition_true | none ↦ false ] ≡ true
          → has_status o condition_true ≡ true
      by_condition none e = e
      by_condition (some x) e = e

  pub marked-ready :
      (t u : Tenant) (now : Time)
      → u.object_meta ≡ t.object_meta
      → deleting t ≡ false
      → IsUnique (get_conditions u)
      → expected_phase (mark_ready p c lookup lawful now u) ≡ "Ready"
  marked-ready t u now same live unique =
      ready_phase (mark_ready p c lookup lawful now u)
        (ap (λ o. is_deleting o.deletion_timestamp)
            (marked-object_meta p lookup lawful true now u tenant_condition_ready "Success" "Ready"
              ∙ same)
          ∙ live)
        (is_true-marked p lookup lawful true now u tenant_condition_ready "Success" "Ready" unique
            tenant_condition_ready
          ∙ ap (λ b. if b then true else is_true u tenant_condition_ready)
              (string_same tenant_condition_ready))

  next-phase :
      (t u : Tenant) (w : W)
      → (handle_tenant p c t w).tenant ≡ u
      → (next t w).status.phase ≡ expected_phase u
  next-phase t u w e =
      ap (λ x. x.status.phase)
        (reconcile_phase-priority p.machinery lawful.machinery (handle_tenant p c t w).tenant)
      ∙ ap (λ x. expected_phase x) e

  -- A tenant that has the finalizer and is not deleted is Ready after one pass whose steps all
  -- succeed, whatever failed before, and the handler asks for no other run. No condition type
  -- stands twice before. The code outside behaves as documented.
  pub healthy_pass :
      (t : Tenant) (w : W)
      → held t ≡ true
      → deleting t ≡ false
      → IsUnique (get_conditions t)
      → IsHealthy p c lookup lawful t w
      → ((handle_tenant p c t w).result ≡ ok no_requeue) × ((next t w).status.phase ≡ "Ready")
  healthy_pass t w there live unique h =
      let (u, time, x, end, same, kept) = healthy_end p c lookup lawful t w h in
      let run = handle_tenant-normal p c lawful.machinery t w there live ∙ end in
      (
        ap (λ y. y.result) run,
        next-phase t (mark_ready p c lookup lawful time u) w (ap (λ y. y.tenant) run)
            ∙ marked-ready t u time same live (kept unique).0,
      )

  -- The first pass over a tenant without the finalizer takes hold of it.
  pub first_pass :
      (t : Tenant) (w : W)
      → held t ≡ false
      → deleting t ≡ false
      → IsUnique (get_conditions t)
      → (held (next t w) ≡ true)
        × (deleting (next t w) ≡ false)
        × IsUnique (get_conditions (next t w))
  unfolding get_conditions
  first_pass t w absent live unique = (
    ap (λ u. held u) first ∙ added-held p c lookup lawful t,
    ap (λ u. deleting u) first ∙ live,
    subst (λ u. IsUnique (get_conditions u)) (sym first) unique,
  )
    where
      new : Tenant
      new = added p c lookup lawful t

      first : next t w ≡ with_phase (expected_phase new) new
      first =
          reconcile_phase-priority p.machinery lawful.machinery (handle_tenant p c t w).tenant
          ∙ ap (λ u. with_phase (expected_phase u) u)
              (handle_tenant-absent p c lookup lawful t w absent)

  -- Two passes make such a tenant Ready, if the steps of the second all succeed.
  pub ready_in_two_passes :
      (t : Tenant) (w w' : W)
      → held t ≡ false
      → deleting t ≡ false
      → IsUnique (get_conditions t)
      → IsHealthy p c lookup lawful (next t w) w'
      → (next (next t w) w').status.phase ≡ "Ready"
  ready_in_two_passes t w w' absent live unique h =
      let (there, alive, still) = first_pass t w absent live unique in
      (healthy_pass (next t w) w' there alive still h).1
