-- ===== src/Manager/Command.antt =====
-- cmd/manager/app/app.go: the command that runs the manager. controller-runtime's manager, cobra and
-- the logging library are parameters; printing of flags and build information is left out.
use multi_tenants.Base.{
  ℤ, String, Bool, List, [], ◌∷◌, Result, Error, Call, throw, lift, ◌>>=◌, ◌>>◌, ◌==◌, string_eq,
  if◌then◌else◌,
}
use multi_tenants.Api.{Kind, ObjectKey}
use multi_tenants.Client.{Client}
use multi_tenants.Controllers.{TenantController}
use multi_tenants.Manager.Options.{Options, FieldError, validate}

-- `ctrl.Options`, the fields that are set.
pub record ManagerOptions (Scheme : Type 0) : Type 0 where
  pub scheme : Scheme
  pub leader_election : Bool
  pub leader_election_release_on_cancel : Bool
  pub leader_election_resource_lock : String
  pub leader_election_namespace : String
  pub leader_election_id : String
  pub lease_duration : ℤ
  pub renew_deadline : ℤ
  pub retry_period : ℤ
  pub client_disable_cache_for : List Kind

-- Over a type of schemes, `*runtime.Scheme`.
pub record Runtime (W Scheme : Type 0) : Type 1 where
  pub Manager : Type 0
  -- `ctrl.NewManager(ctrl.GetConfigOrDie(), options)`
  pub new_manager : ManagerOptions Scheme → Call W Manager
  -- `mgr.GetClient()`
  pub get_client : Manager → Client W
  -- `NewControllerManagedBy(mgr).For(&Tenant{}).WithOptions(options).Complete(c)` for the
  -- controller `c` with its client and `MaxConcurrentReconciles`.
  pub complete : Manager → TenantController → Client W → ℤ → Call W (Unit {0})
  -- `mgr.Start(ctx)`
  pub start : Manager → Call W (Unit {0})
  -- `cache.SplitMetaNamespaceKey`: namespace and name
  pub split_meta_namespace_key : String → Result (String × String)
  -- `opts.Log.ValidateAndApply()`
  pub validate_and_apply_log : Call W (Unit {0})
  -- `field.ErrorList.ToAggregate` of a list with an error in it
  pub to_aggregate : List FieldError → Error

unfoldable pub manager_options : {S : Type 0} → S → Options → ManagerOptions S
manager_options scheme o = record {
  scheme = scheme;
  leader_election = o.leader_election.leader_elect;
  leader_election_release_on_cancel = Bool.true;
  leader_election_resource_lock = o.leader_election.resource_lock;
  leader_election_namespace = o.leader_election.resource_namespace;
  leader_election_id = o.leader_election.resource_name;
  lease_duration = o.leader_election.lease_duration;
  renew_deadline = o.leader_election.renew_deadline;
  retry_period = o.leader_election.retry_period;
  client_disable_cache_for = Kind.secret ∷ Kind.deployment ∷ [];
}

-- An empty namespace is the default one.
unfoldable pub secret_key : String × String → ObjectKey
secret_key (namespace, name) = record {
  namespace = if namespace == "" then "default" else namespace;
  name = name;
}

module _ {W S : Type 0} (r : Runtime W S) where
  -- `SetupWithManager` of pkg/controllers/tenant_controller.go.
  unfoldable pub setup_with_manager :
      TenantController → Client W → r.Manager → ℤ → Call W (Unit {0})
  setup_with_manager c client manager concurrency = r.complete manager c client concurrency

  -- `scheme` is the package's variable. Both branches on the error of `Get` return it.
  unfoldable pub run : S → Options → Call W (Unit {0})
  unfolding setup_with_manager
  run scheme opts = do
    manager ← r.new_manager (manager_options scheme opts)
    key ← lift (r.split_meta_namespace_key opts.etcd_secret)
    etcd_secret ← (r.get_client manager).get Kind.secret (secret_key key)
    setup_with_manager
        (record { etcd_secret = etcd_secret.contents; etcd_servers = opts.etcd_servers })
        (r.get_client manager) manager opts.concurrency_tenant_sync
    r.start manager

  -- What stands after `Validate`.
  unfoldable pub run_validated : S → Options → List FieldError → Call W (Unit {0})
  run_validated scheme opts [] = run scheme opts
  run_validated scheme opts (e ∷ errs) = throw (r.to_aggregate (e ∷ errs))

  -- `RunE` of the command.
  unfoldable pub run_command : S → Options → Call W (Unit {0})
  unfolding run_validated
  run_command scheme opts = do r.validate_and_apply_log; run_validated scheme opts (validate opts)
