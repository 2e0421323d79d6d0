-- ===== src/Tests/ManagerExamples.antt =====
-- The theorems on the options and the start of the manager at concrete values.
use multi_tenants.Base.{
  string_differs, String, pos_part, ◌<◌, ◌≡◌, ◌≢◌, ◌↔◌, refl, [], ◌∷◌, some, none, ok, err, message,
  ◌==◌, string_eq, if◌then◌else◌, ◌>>=◌, lift,
}
use multi_tenants.Api.{ObjectKey, ObjectKey_eq, Secret}
use multi_tenants.Manager.Options.{
  Options, Flags, IsLawfulFlags, required, validate, check, new_options, add_flags,
}
use multi_tenants.Manager.Validation.{
  IsRunnable, IsElectable, requirements, reports, validate-IsRunnable_iff, defaults-IsRunnable,
}
use multi_tenants.Manager.Command.{
  Runtime, ManagerOptions, manager_options, secret_key, run, run_validated, run_command,
  setup_with_manager,
}
use multi_tenants.Manager.Starting.{run_command_rejects, run_command-IsStarted_iff, IsStarted}
use multi_tenants.Tests.Server.{Host, test_client}
use multi_tenants.Tests.Setting.{acme_meta, empty_host}

abbrev pub test_flags : Flags
test_flags = record {
  FlagSet = Unit {0};
  add_feature_gates = λ fs. fs;
  add_log_flags = λ fs. fs;
  string_var = λ n d u fs. (fs, d);
  int_var = λ n d u fs. (fs, d);
  bool_var = λ n d u fs. (fs, d);
  duration_var = λ n d u fs. (fs, d);
}

pub test_flags-IsLawfulFlags : IsLawfulFlags test_flags
test_flags-IsLawfulFlags = record {
  string_var-default = λ n d u fs. refl;
  int_var-default = λ n d u fs. refl;
  bool_var-default = λ n d u fs. refl;
  duration_var-default = λ n d u fs. refl;
}

abbrev test_options : Options
test_options = record ((add_flags test_flags new_options tt).1) {
  etcd_servers = "https://etcd:2379";
  etcd_secret = "etcd";
}

abbrev no_servers : Options
no_servers = record test_options { etcd_servers = "" }

-- Of these options the one error is the missing servers.
no_servers-errors : validate no_servers ≡ required "EtcdServers" "must not empty" ∷ []
unfolding validate check add_flags new_options string_eq
no_servers-errors = refl

validate-IsRunnable_iff_example : (validate no_servers ≡ []) ↔ IsRunnable no_servers
validate-IsRunnable_iff_example = validate-IsRunnable_iff no_servers

abbrev etcd_name : String
etcd_name = "etcd"

abbrev etcd_servers : String
etcd_servers = "https://etcd:2379"

some_name : etcd_name ≢ ""
unfolding string_eq
some_name = string_differs etcd_name "" refl

some_servers : etcd_servers ≢ ""
unfolding string_eq
some_servers = string_differs etcd_servers "" refl

defaults-IsRunnable_example :
    IsRunnable test_options
    × IsElectable test_options.leader_election
    × (0 < pos_part test_options.concurrency_tenant_sync)
defaults-IsRunnable_example =
    defaults-IsRunnable test_flags test_flags-IsLawfulFlags new_options tt etcd_servers etcd_name
      some_servers some_name

abbrev etcd_key : ObjectKey
etcd_key = record { namespace = "default"; name = "etcd" }

abbrev etcd_secret : Secret
etcd_secret = record {
  object_meta = record acme_meta { name = "etcd"; namespace = "default" };
  type = "Opaque";
  contents = ("etcd-ca.crt", 7 ∷ []) ∷ [];
}

abbrev etcd_host : Host
etcd_host = record empty_host {
  secrets = λ key. if etcd_key == key then some etcd_secret else none;
}

-- A key without a slash is the name alone.
-- Over any type of schemes.
unfoldable pub test_runtime : {S : Type 0} → Runtime Host S
test_runtime {S} = record {
  Manager = ManagerOptions S;
  new_manager = λ o w. (ok o, w);
  get_client = λ _. test_client;
  complete = λ _ _ _ _ w. (ok tt, w);
  start = λ _ w. (ok tt, w);
  split_meta_namespace_key = λ s. ok ("", s);
  validate_and_apply_log = λ w. (ok tt, w);
  to_aggregate = λ errs. message "invalid options";
}

abbrev unit_runtime : Runtime Host (Unit {0})
unit_runtime = test_runtime

no_servers_unfit : IsRunnable no_servers → ⊥
no_servers_unfit h = h.etcd_servers refl

run_command_rejects_example : run_command unit_runtime tt no_servers empty_host ≡ (
  err (unit_runtime.to_aggregate (reports (requirements no_servers))),
  (unit_runtime.validate_and_apply_log empty_host).1,
)
unfolding test_runtime
run_command_rejects_example =
    run_command_rejects unit_runtime tt no_servers empty_host refl no_servers_unfit

run_succeeds : (run_command unit_runtime tt test_options etcd_host).0 ≡ ok tt
unfolding test_runtime run_command run run_validated validate check setup_with_manager secret_key
    manager_options add_flags new_options ◌>>=◌ lift string_eq ObjectKey_eq test_client
run_succeeds = refl

run_command-IsStarted_iff_example :
    ((run_command unit_runtime tt test_options etcd_host).0 ≡ ok tt) ↔ (
      ((unit_runtime.validate_and_apply_log etcd_host).0 ≡ ok tt)
      × IsRunnable test_options
      × IsStarted unit_runtime tt test_options (unit_runtime.validate_and_apply_log etcd_host).1)
run_command-IsStarted_iff_example = run_command-IsStarted_iff unit_runtime tt test_options etcd_host

-- The command does run on them.
options-IsStarted :
    IsStarted unit_runtime tt test_options (unit_runtime.validate_and_apply_log etcd_host).1
options-IsStarted =
    ((run_command-IsStarted_iff unit_runtime tt test_options etcd_host).0 run_succeeds).2
