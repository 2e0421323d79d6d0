-- ===== src/Controllers/Normal.antt =====
-- `reconcileNormal` of tenant_controller.go.
use multi_tenants.Base.{
  ◌*◌, String, Bool, true, false, not, ◌||◌, none, Result, ok, err, [], Call, pure, ◌>>=◌, ◌>>◌,
  ◌!=◌, nat_eq, if◌then◌else◌,
}
use multi_tenants.Api.{
  Time, Kind, Namespace, Tenant, cluster_namespace_in_host, tenant_condition_provisioned,
  tenant_condition_ready,
}
use multi_tenants.Conditions.{has, is_false, mark_true, mark_false}
use multi_tenants.Conditions.TenantConditions.{tenant_setter}
use multi_tenants.ControllerUtil.{create_if_not_exists}
use multi_tenants.Controllers.Setup.{Platform, TenantController, owner_of}
use multi_tenants.Controllers.Secrets.{reconcile_secret, reconcile_kube_config}
use multi_tenants.Controllers.ApiServer.{reconcile_api_server}
use multi_tenants.Controllers.ControllerManager.{reconcile_controller_manager}

-- `reconcile.Result`
pub record ReconcileResult : Type 0 where
  pub requeue : Bool
  pub requeue_after : Time

abbrev pub no_requeue : ReconcileResult
no_requeue = record { requeue = false; requeue_after = 0 }

abbrev pub requeue_soon : ReconcileResult
requeue_soon = record { requeue = true; requeue_after = 10 * 1_000_000_000 }

-- What a handler leaves: the tenant that it was given a pointer to, its result and the world.
pub record Handled (W : Type 0) : Type 0 where
  pub tenant : Tenant
  pub result : Result ReconcileResult
  pub world : W

abbrev pub host_namespace : Tenant → Namespace
host_namespace t = record {
  object_meta = record {
    name = cluster_namespace_in_host t;
    namespace = "";
    uid = "";
    owner_references = owner_of t;
    finalizers = [];
    deletion_timestamp = none;
  };
}

module _ {W : Type 0} (p : Platform W) (c : TenantController) where
  open p use {client, machinery, crypto, sort_slice}

  -- The loop over the phases, which stops at the first error.
  unfoldable pub provision : Tenant → Call W (Unit {0})
  provision t = do
    reconcile_secret p c t
    reconcile_kube_config p t
    reconcile_api_server p c t
    reconcile_controller_manager p t

  unfoldable pub needs_provision : Tenant → Bool
  needs_provision t =
      not (has t tenant_condition_provisioned) || is_false t tenant_condition_provisioned

  -- `checkDeploy`
  unfoldable pub check_deploy : String → String → Call W ReconcileResult
  check_deploy namespace name = do
    deploy ← client.get Kind.deployment (record { namespace = namespace; name = name })
    if deploy.status.replicas != deploy.status.ready_replicas
        then pure requeue_soon
        else pure no_requeue

  -- Both checks; an early return skips the second.
  unfoldable pub check_ready : Tenant → Call W ReconcileResult
  unfolding check_deploy
  check_ready t = do
    result ← check_deploy (cluster_namespace_in_host t) "kube-apiserver"
    if result.requeue
        then pure result
        else check_deploy (cluster_namespace_in_host t) "kube-controller-manager"

  abbrev pub mark : Bool → Tenant → String → String → String → W → Tenant × W
  mark status t type reason message w =
      let (now, w') = crypto.now w in
      (
        if status
            then mark_true machinery sort_slice now t type reason message
            else mark_false machinery sort_slice now t type reason message,
        w',
      )

  -- The end of the handler, after the checks.
  unfoldable pub end_normal : Tenant → Result ReconcileResult × W → Handled W
  end_normal t (err e, w) = record { tenant = t; result = err e; world = w }
  end_normal t (ok result, w) =
      if result.requeue
      then record { tenant = t; result = ok result; world = w }
      else (let (t', w') = mark true t tenant_condition_ready "Success" "Ready" w in
          record { tenant = t'; result = ok no_requeue; world = w' })

  unfoldable pub check_and_end : Tenant → W → Handled W
  unfolding check_ready end_normal
  check_and_end t w = end_normal t (check_ready t w)

  -- After the loop over the phases.
  unfoldable pub end_provision : Tenant → Result (Unit {0}) × W → Handled W
  unfolding check_and_end
  end_provision t (err e, w) =
      let (t', w') =
        mark false t tenant_condition_provisioned "Failed" "Failed to handle phase" w in
      record { tenant = t'; result = err e; world = w' }
  end_provision t (ok _, w) =
      let (t', w') = mark true t tenant_condition_provisioned "Success" "Success to provision" w in
      check_and_end t' w'

  -- After the namespace is ensured.
  unfoldable pub after_namespace : Tenant → Result (Unit {0}) × W → Handled W
  unfolding end_provision needs_provision
  after_namespace t (err e, w) = record { tenant = t; result = err e; world = w }
  after_namespace t (ok _, w) =
      if needs_provision t then end_provision t (provision t w) else check_and_end t w

  unfoldable pub ensure_namespace : Tenant → Call W (Unit {0})
  ensure_namespace t = do
    _ ← create_if_not_exists client machinery Kind.namespace (host_namespace t) pure
    pure tt

  unfoldable pub reconcile_normal : Tenant → W → Handled W
  unfolding after_namespace
  reconcile_normal t w = after_namespace t (ensure_namespace t w)
