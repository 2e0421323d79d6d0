-- ===== src/Controllers/Reconcile.antt =====
-- `Reconcile` and `reconcileDelete` of tenant_controller.go.
use multi_tenants.Base.{
  String, not, none, some, [], ◌∷◌, Result, ok, err, error_of, Call, pure, attempt, List,
  if◌then◌else◌,
}
use multi_tenants.Api.{Kind, ObjectKey, TenantPhase, Tenant, is_phase}
use multi_tenants.ControllerUtil.{MutateFn}
use multi_tenants.ControllerUtil.Patch.{Operation, patch_if_exists}
use multi_tenants.Controllers.Setup.{Platform, TenantController}
use multi_tenants.Controllers.Phase.{reconcile_phase}
use multi_tenants.Controllers.Normal.{ReconcileResult, no_requeue, Handled, reconcile_normal}

abbrev pub tenant_finalizer : String
tenant_finalizer = "tenancy.kcp.io/tenants"

abbrev pub set_finalizers : List String → Tenant → Tenant
set_finalizers fs t = record t { object_meta = record (t.object_meta) { finalizers = fs } }

module _ {W : Type 0} (p : Platform W) (c : TenantController) where
  open p use {client, machinery, converter}

  unfoldable pub reconcile_delete : Tenant → W → Handled W
  reconcile_delete t w =
      if not (is_phase t.status TenantPhase.terminating)
      then record { tenant = t; result = ok no_requeue; world = w }
      else record {
        tenant =
            set_finalizers (machinery.remove_finalizer t.object_meta.finalizers tenant_finalizer) t;
        result = ok no_requeue;
        world = w;
      }

  -- What runs between the first `Get` and the deferred function.
  unfoldable pub handle_tenant : Tenant → W → Handled W
  unfolding reconcile_delete
  handle_tenant t w =
      if not (machinery.contains_finalizer t.object_meta.finalizers tenant_finalizer)
      then record {
        tenant =
            set_finalizers (machinery.add_finalizer t.object_meta.finalizers tenant_finalizer) t;
        result = ok no_requeue;
        world = w;
      }
      else if not (machinery.is_zero t.object_meta.deletion_timestamp)
      then reconcile_delete t w
      else reconcile_normal p c t w

  -- The closure that is given to `PatchIfExists`.
  unfoldable pub copy_fields : Tenant → MutateFn W Kind.tenant
  copy_fields t obj = pure (record obj {
    object_meta = record (obj.object_meta) {
      finalizers = t.object_meta.finalizers;
      owner_references = t.object_meta.owner_references;
    };
    status = record (obj.status) { phase = t.status.phase; conditions = t.status.conditions };
  })

  abbrev pub join_error : Result ReconcileResult → Operation × W → Result ReconcileResult × W
  join_error result ((_, none), w) = (result, w)
  join_error result ((_, some e), w) = (err (machinery.new_aggregate (error_of result ∷ []) e), w)

  -- The deferred function, with the result that it may replace.
  unfoldable pub finish_reconcile : Handled W → Result ReconcileResult × W
  unfolding copy_fields
  finish_reconcile h =
      let t = reconcile_phase machinery h.tenant in
      join_error h.result
        (patch_if_exists client machinery converter Kind.tenant t (some (copy_fields t)) h.world)

  abbrev pub on_tenant : Result Tenant → Call W ReconcileResult
  on_tenant (err e) w = (if machinery.is_not_found e then ok no_requeue else err e, w)
  on_tenant (ok t) w = finish_reconcile (handle_tenant t w)

  unfoldable pub reconcile : ObjectKey → Call W ReconcileResult
  unfolding handle_tenant finish_reconcile
  reconcile key = attempt (client.get Kind.tenant key) on_tenant
