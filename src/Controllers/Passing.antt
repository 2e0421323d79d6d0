-- ===== src/Controllers/Passing.antt =====
-- A rule for what holds after a pass of `Reconcile` (tenant_controller.go): the handler, and the
-- phase that the deferred function sets.
use multi_tenants.Base.{String, List, sym, subst, inl, inr, Bool-cases}
use multi_tenants.Api.{Tenant, TenantPhase, is_phase}
use multi_tenants.Client.Server.{Lookup}
use multi_tenants.Controllers.Setup.{Platform, TenantController}
use multi_tenants.Controllers.PhaseLaws.{expected_phase, reconcile_phase-priority}
use multi_tenants.Controllers.Normal.{Handled}
use multi_tenants.Controllers.Reconcile.{
  tenant_finalizer, set_finalizers, reconcile_delete, handle_tenant,
}
use multi_tenants.Controllers.Footprint.{IsLawfulPlatform}
use multi_tenants.Controllers.Handling.{IsHandled, reconcile_normal-Holds}
use multi_tenants.Controllers.Lifecycle.{with_phase, pass}

module _ {W : Type 0} (p : Platform W) (c : TenantController) (lookup : Lookup W)
    (lawful : IsLawfulPlatform p lookup) where
  -- What a pass over `t` keeps: beside what the handler keeps, other finalizers and the phase.
  pub record IsPassed (t : Tenant) (P : Tenant → W → Type 0) : Type 0 where
    pub handled : IsHandled p c lookup lawful t P
    pub finalizers : (fs : List String) (w : W) → P t w → P (set_finalizers fs t) w
    pub phase : (u : Tenant) (w : W) → P u w → P (with_phase (expected_phase u) u) w

  module _ (t : Tenant) (P : Tenant → W → Type 0) (h : IsPassed t P) where
    abbrev Holds : Handled W → Type 0
    Holds x = P x.tenant x.world

    reconcile_delete-Holds : (w : W) → P t w → Holds (reconcile_delete p c t w)
    unfolding reconcile_delete
    reconcile_delete-Holds w x = elim (Bool-cases (is_phase t.status TenantPhase.terminating)) [
      | inl late ↦ rw late (h.finalizers _ w x)
      | inr early ↦ rw early x
    ]

    pub handle_tenant-Holds : (w : W) → P t w → Holds (handle_tenant p c t w)
    unfolding handle_tenant
    handle_tenant-Holds w x =
        elim (Bool-cases
          (p.machinery.contains_finalizer t.object_meta.finalizers tenant_finalizer)) [
            | inr absent ↦ rw absent (h.finalizers _ w x)
            | inl held ↦ elim (Bool-cases (p.machinery.is_zero t.object_meta.deletion_timestamp)) [
              | inl live ↦
                  rw (held, live) (reconcile_normal-Holds p c lookup lawful t P h.handled w x)
              | inr deleted ↦ rw (held, deleted) (reconcile_delete-Holds w x)
            ]
          ]

    pub pass-Holds :
        (w : W) → P t w → P (pass p c lawful.machinery t w) (handle_tenant p c t w).world
    pass-Holds w x =
        subst (λ u. P u (handle_tenant p c t w).world)
          (sym
            (reconcile_phase-priority p.machinery lawful.machinery (handle_tenant p c t w).tenant))
          (h.phase _ _ (handle_tenant-Holds w x))
