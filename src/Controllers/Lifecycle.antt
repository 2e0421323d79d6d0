-- ===== src/Controllers/Lifecycle.antt =====
-- How `Reconcile` (tenant_controller.go) takes hold of a tenant by its finalizer, and lets it go.
use multi_tenants.Base.{String, Bool, true, false, ◌≡◌, refl, arith, ◌==◌, string_eq, if◌then◌else◌}
use multi_tenants.Api.{Tenant, TenantPhase, IsLawfulMachinery, is_phase}
use multi_tenants.Controllers.Setup.{Platform, TenantController}
use multi_tenants.Controllers.Phase.{reconcile_phase}
use multi_tenants.Controllers.PhaseLaws.{
  is_deleting, expected_phase, is_zero-deleting, reconcile_phase-priority,
}
use multi_tenants.Controllers.Normal.{reconcile_normal}
use multi_tenants.Controllers.Reconcile.{
  tenant_finalizer, set_finalizers, reconcile_delete, handle_tenant,
}

abbrev pub with_phase : String → Tenant → Tenant
with_phase phase t = record t { status = record (t.status) { phase = phase } }

module _ {W : Type 0} (p : Platform W) (c : TenantController)
    (lawful : IsLawfulMachinery p.machinery) where
  open p use {machinery}

  abbrev pub holds : Tenant → String → Bool
  holds t f = machinery.contains_finalizer t.object_meta.finalizers f

  -- The tenant that a run of `Reconcile` sends to the server.
  abbrev pub pass : Tenant → W → Tenant
  pass t w = reconcile_phase machinery (handle_tenant p c t w).tenant

  -- A tenant that is not deleted and has the finalizer is handed to `reconcileNormal`.
  pub handle_tenant-normal :
      (t : Tenant) (w : W)
      → holds t tenant_finalizer ≡ true
      → is_deleting t.object_meta.deletion_timestamp ≡ false
      → handle_tenant p c t w ≡ reconcile_normal p c t w
  unfolding handle_tenant
  handle_tenant-normal t w held live =
      rw (handle_tenant, held, is_zero-deleting machinery lawful, live) refl

  pub handle_tenant-delete :
      (t : Tenant) (w : W)
      → holds t tenant_finalizer ≡ true
      → is_deleting t.object_meta.deletion_timestamp ≡ true
      → handle_tenant p c t w ≡ reconcile_delete p c t w
  unfolding handle_tenant
  handle_tenant-delete t w held deleting =
      rw (handle_tenant, held, is_zero-deleting machinery lawful, deleting) refl

  reconcile_phase_deleting :
      (t : Tenant)
      → is_deleting t.object_meta.deletion_timestamp ≡ true
      → reconcile_phase machinery t ≡ with_phase "Terminating" t
  unfolding expected_phase
  reconcile_phase_deleting t deleting =
      rw (reconcile_phase-priority machinery lawful t, expected_phase, deleting) refl

  -- First pass over a tenant that is being deleted: it only becomes Terminating.
  pub pass_terminates :
      (t : Tenant) (w : W)
      → holds t tenant_finalizer ≡ true
      → is_deleting t.object_meta.deletion_timestamp ≡ true
      → is_phase t.status TenantPhase.terminating ≡ false
      → ((handle_tenant p c t w).world ≡ w) × (pass t w ≡ with_phase "Terminating" t)
  unfolding reconcile_delete
  pass_terminates t w held deleting early =
      rw
        (
          handle_tenant-delete t w held deleting,
          reconcile_delete,
          early,
          reconcile_phase_deleting t deleting,
        )
        (refl, refl)

  pub is_phase_late :
      (t : Tenant)
      → t.status.phase ≡ "Terminating"
      → is_phase t.status TenantPhase.terminating ≡ true
  unfolding is_phase
  is_phase_late t late = ground arith

  -- Second pass: the finalizer goes.
  pub pass_releases :
      (t : Tenant) (w : W)
      → holds t tenant_finalizer ≡ true
      → is_deleting t.object_meta.deletion_timestamp ≡ true
      → t.status.phase ≡ "Terminating"
      → ((handle_tenant p c t w).world ≡ w)
        × (pass t w
            ≡ with_phase "Terminating" (
                set_finalizers
                  (machinery.remove_finalizer t.object_meta.finalizers tenant_finalizer)
                  t))
  unfolding reconcile_delete
  pass_releases t w held deleting late =
      rw (handle_tenant-delete t w held deleting, reconcile_delete, is_phase_late t late)
        (
          refl,
          reconcile_phase_deleting
              (set_finalizers (machinery.remove_finalizer t.object_meta.finalizers tenant_finalizer)
                t)
              deleting,
        )

  -- A deleted tenant that has the finalizer and is not yet Terminating loses it in exactly two
  -- passes: the first changes its phase to Terminating and nothing else, the second takes this
  -- one finalizer away; neither acts on the host cluster. The code outside behaves as
  -- documented.
  pub deletion_in_two_passes :
      (t : Tenant) (w w' : W)
      → holds t tenant_finalizer ≡ true
      → is_deleting t.object_meta.deletion_timestamp ≡ true
      → is_phase t.status TenantPhase.terminating ≡ false
      → ((handle_tenant p c t w).world ≡ w)
        × ((handle_tenant p c (pass t w) w').world ≡ w')
        × (pass t w ≡ with_phase "Terminating" t)
        × ((f : String)
            → holds (pass (pass t w) w') f ≡ (if tenant_finalizer == f then false else holds t f))
  deletion_in_two_passes t w w' held deleting early =
      let (still, first) = pass_terminates t w held deleting early in
      let (still', second) = pass_releases (with_phase "Terminating" t) w' held deleting refl in
      rw (first, second) (still, still', refl, λ f. lawful.contains-remove _ _ f)
