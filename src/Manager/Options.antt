-- ===== src/Manager/Options.antt =====
-- cmd/manager/app/options/options.go. The options of the logging library are not held here, and
-- pflag is a parameter.
use multi_tenants.Base.{
  ℕ, ◌*◌, ℤ, pos, leb_ℤ, String, Bool, true, false, List, [], ◌∷◌, ◌++◌, ◌≡◌, ◌==◌, string_eq,
  if◌then◌else◌,
}

-- `componentbaseconfig.LeaderElectionConfiguration`; durations are signed nanoseconds.
pub record LeaderElection : Type 0 where
  pub leader_elect : Bool
  pub resource_lock : String
  pub resource_namespace : String
  pub resource_name : String
  pub lease_duration : ℤ
  pub renew_deadline : ℤ
  pub retry_period : ℤ

pub record Options : Type 0 where
  pub etcd_servers : String
  pub etcd_secret : String
  pub concurrency_tenant_sync : ℤ
  pub leader_election : LeaderElection

-- `resourcelock.LeasesResourceLock`
abbrev pub leases_resource_lock : String
leases_resource_lock = "leases"

unfoldable pub new_options : Options
new_options = record {
  etcd_servers = "";
  etcd_secret = "";
  concurrency_tenant_sync = pos 0;
  leader_election = record {
    leader_elect = false;
    resource_lock = leases_resource_lock;
    resource_namespace = "";
    resource_name = "";
    lease_duration = pos 0;
    renew_deadline = pos 0;
    retry_period = pos 0;
  };
}

-- `pflag.FlagSet`. A `…Var` call is given a name, a default and a usage; it also gives the value
-- that it leaves in the variable of the flag.
pub record Flags : Type 1 where
  pub FlagSet : Type 0
  -- `utilfeature.DefaultMutableFeatureGate.AddFlag` and `o.Log.AddFlags`
  pub add_feature_gates : FlagSet → FlagSet
  pub add_log_flags : FlagSet → FlagSet
  pub string_var : String → String → String → FlagSet → FlagSet × String
  pub int_var : String → ℤ → String → FlagSet → FlagSet × ℤ
  pub bool_var : String → Bool → String → FlagSet → FlagSet × Bool
  pub duration_var : String → ℤ → String → FlagSet → FlagSet × ℤ

-- Defining a flag sets its variable to the default.
pub record IsLawfulFlags (l : Flags) : Type 0 where
  pub string_var-default : (n d u : String) (fs : l.FlagSet) → (l.string_var n d u fs).1 ≡ d
  pub int_var-default :
      (n : String) (d : ℤ) (u : String) (fs : l.FlagSet) → (l.int_var n d u fs).1 ≡ d
  pub bool_var-default :
      (n : String) (d : Bool) (u : String) (fs : l.FlagSet) → (l.bool_var n d u fs).1 ≡ d
  pub duration_var-default :
      (n : String) (d : ℤ) (u : String) (fs : l.FlagSet) → (l.duration_var n d u fs).1 ≡ d

abbrev pub seconds : ℕ → ℤ
seconds n = pos (n * 1_000_000_000)

unfoldable pub add_flags : (l : Flags) → Options → l.FlagSet → l.FlagSet × Options
add_flags l o flags =
    let flags1 = l.add_log_flags (l.add_feature_gates flags) in
    let (flags2, servers) =
      l.string_var "etcd-servers" ""
        "Etcd servers, used for tenant apiserver connect to host etcd clusters, use ',' to separate."
        flags1 in
    let (flags3, secret) =
      l.string_var "etcd-secret" ""
        "Reference of etcd secret, use [namespace]/[name] or [name](use default namespace)."
        flags2 in
    let (flags4, concurrency) =
      l.int_var "concurrency-tenant-sync" (pos 10) "Concurrency of tenant controllers to sync."
        flags3 in
    let (flags5, elect) = l.bool_var "leader-elect" true "Enable leader elect." flags4 in
    let (flags6, namespace) =
      l.string_var "leader-elect-resource-namespace" "default" "Namespace of leader elect resource."
        flags5 in
    let (flags7, name) =
      l.string_var "leader-elect-resource-name" "manager.multi-tenants.kcp.io"
        "Name of leader elect resource." flags6 in
    let (flags8, lease) =
      l.duration_var "leader-elect-lease-duration" (seconds 15) "Duration of leader elect lease."
        flags7 in
    let (flags9, renew) =
      l.duration_var "leader-elect-renew-deadline" (seconds 10)
        "Duration of leader elect renew deadline." flags8 in
    let (flags10, retry) =
      l.duration_var "leader-elect-retry-period" (seconds 3)
        "Duration of leader elect retry period." flags9 in
    (
      flags10,
      record {
        etcd_servers = servers;
        etcd_secret = secret;
        concurrency_tenant_sync = concurrency;
        leader_election = record {
          leader_elect = elect;
          resource_lock = o.leader_election.resource_lock;
          resource_namespace = namespace;
          resource_name = name;
          lease_duration = lease;
          renew_deadline = renew;
          retry_period = retry;
        };
      },
    )

-- `field.Error` of type Required: the elements of its path, and the detail.
pub record FieldError : Type 0 where
  pub path : List String
  pub detail : String

-- `field.Required(newPath.Child(name), detail)`
abbrev pub required : String → String → FieldError
required name detail = record { path = "Options" ∷ name ∷ []; detail = detail }

-- One `if` of the function, on the errors so far.
unfoldable pub check : Bool → FieldError → List FieldError → List FieldError
check violated e errs = if violated then errs ++ e ∷ [] else errs

unfoldable pub validate : Options → List FieldError
unfolding check
validate o =
    let election = o.leader_election in
    let errs1 =
      check (leb_ℤ election.lease_duration (pos 0))
        (required "LeaderElection.LeaseDuration.Duration" "must bigger than 0") [] in
    let errs2 =
      check (leb_ℤ election.renew_deadline (pos 0))
        (required "LeaderElection.RenewDeadline.Duration" "must bigger than 0") errs1 in
    let errs3 =
      check (leb_ℤ election.retry_period (pos 0))
        (required "LeaderElection.RetryPeriod.Duration" "must bigger than 0") errs2 in
    let errs4 = check (o.etcd_servers == "") (required "EtcdServers" "must not empty") errs3 in
    check (o.etcd_secret == "") (required "EtcdSecret" "must not empty") errs4
