-- ===== src/Controllers/Phase.antt =====
-- `reconcilePhase` of tenant_controller_phase.go.
use multi_tenants.Base.{not, ◌==◌, string_eq, if◌then◌else◌}
use multi_tenants.Api.{
  TenantPhase, TenantStatus, Tenant, Machinery, set_phase, tenant_condition_provisioned,
  tenant_condition_ready,
}

module _ (m : Machinery) where
  -- The six tests in their order, each on the status that the one before it left.
  unfoldable pub phase_steps : Tenant → TenantStatus → TenantStatus
  unfolding set_phase
  phase_steps t s0 =
      let s1 = if s0.phase == "" then set_phase TenantPhase.pending s0 else s0 in
      let s2 =
        if m.is_status_condition_false s1.conditions tenant_condition_provisioned
        then set_phase TenantPhase.provisioning s1
        else s1 in
      let s3 =
        if m.is_status_condition_true s2.conditions tenant_condition_provisioned
        then set_phase TenantPhase.provisioned s2
        else s2 in
      let s4 =
        if m.is_status_condition_false s3.conditions tenant_condition_ready
        then set_phase TenantPhase.failed s3
        else s3 in
      let s5 =
        if m.is_status_condition_true s4.conditions tenant_condition_ready
        then set_phase TenantPhase.ready s4
        else s4 in
      if not (m.is_zero t.object_meta.deletion_timestamp)
      then set_phase TenantPhase.terminating s5
      else s5

  unfoldable pub reconcile_phase : Tenant → Tenant
  unfolding phase_steps
  reconcile_phase t = record t { status = phase_steps t t.status }
