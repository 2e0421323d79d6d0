-- ===== src/Controllers/Stages.antt =====
-- The life of a tenant under the reconciler (tenant_controller.go) as an abstract machine, without
-- objects, worlds and condition lists.
use multi_tenants.Base.{ℕ, ◌≤◌, Bool, string_eq, if◌then◌else◌}
use multi_tenants.Api.{
  Tenant, TenantPhase, Machinery, is_phase, tenant_condition_provisioned, tenant_condition_ready,
}
use multi_tenants.Conditions.{is_true, is_false}
use multi_tenants.Conditions.TenantConditions.{tenant_setter}
use multi_tenants.Controllers.PhaseLaws.{is_deleting}
use multi_tenants.Controllers.Reconcile.{tenant_finalizer}

pub data Progress : Type 0 where
  waiting failing provisioned ready : Progress

abbrev pub rank : Progress → ℕ
rank Progress.waiting = 0
rank Progress.failing = 1
rank Progress.provisioned = 2
rank Progress.ready = 3

-- Without the finalizer, or worked on; after the request to delete it: not yet or already shown
-- as Terminating, and let go.
pub data Stage : Type 0 where
  unclaimed : Progress → Stage
  active : Progress → Stage
  doomed : Stage
  terminating : Stage
  released : Stage

-- What one pass may do.
pub data Move : Stage → Stage → Type 0 where
  claim : (a : Progress) → Move (Stage.unclaimed a) (Stage.active a)
  work : (a b : Progress) → rank a ≤ rank b → Move (Stage.active a) (Stage.active b)
  condemn : Move Stage.doomed Stage.terminating
  release : Move Stage.terminating Stage.released
  reclaim : Move Stage.released Stage.terminating

abbrev pub progress_of : Bool → Bool → Bool → Progress
progress_of is_ready is_provisioned failed =
    if is_ready
    then Progress.ready
    else if is_provisioned
    then Progress.provisioned
    else if failed
    then Progress.failing
    else Progress.waiting

-- The abstraction: conditions give the progress, metadata and the phase the stage.
unfoldable pub progress : Tenant → Progress
progress u =
    progress_of (is_true u tenant_condition_ready) (is_true u tenant_condition_provisioned)
      (is_false u tenant_condition_provisioned)

abbrev pub stage_of : Bool → Bool → Bool → Progress → Stage
stage_of deleting held late a =
    if deleting
    then if held then if late then Stage.terminating else Stage.doomed else Stage.released
    else if held
    then Stage.active a
    else Stage.unclaimed a

unfoldable pub stage : Machinery → Tenant → Stage
unfolding progress
stage m u =
    stage_of (is_deleting u.object_meta.deletion_timestamp)
      (m.contains_finalizer u.object_meta.finalizers tenant_finalizer)
      (is_phase u.status TenantPhase.terminating) (progress u)
