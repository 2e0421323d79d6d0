-- ===== src/Tests/ClusterExamples.antt =====
-- The theorems on the state that a tenant settles in, and on several tenants, at concrete host
-- clusters.
use multi_tenants.Base.{
  ◌≢◌, Bool, none, sym, ◌∙◌, ap, ◌==◌, if◌then◌else◌, true, false, ◌&&◌, ok, ◌≡◌, refl, some,
  string_eq, string_differs,
}
use multi_tenants.Api.{
  get_conditions, Kind, ObjectKey, ObjectKey_eq, Tenant, cluster_namespace_in_host,
}
use multi_tenants.Controllers.Reconcile.{reconcile}
use multi_tenants.Conditions.{get, find, has, is_false, has_same_state, lexicographic_less}
use multi_tenants.Conditions.TenantConditions.{tenant_setter}
use multi_tenants.ControllerUtil.Creating.{IsPresent}
use multi_tenants.Controllers.Normal.{needs_provision, host_namespace}
use multi_tenants.Controllers.Settled.{IsSettled}
use multi_tenants.Controllers.Resting.{reconcile_rests}
use multi_tenants.Controllers.Sharing.{Shifts, settled_in_company}
use multi_tenants.Tests.Machines.{test_machinery}
use multi_tenants.Controllers.Isolation.{name_of, interleaved, Acts, Turns, Turns-isolated}
use multi_tenants.Tests.Server.{Host, read, test_client}
use multi_tenants.Tests.Setting.{
  test_platform, test_platform-IsLawfulPlatform, test_controller, acme, acme_meta, running,
  empty_host,
}

abbrev acme_key : ObjectKey
acme_key = record { namespace = ""; name = "acme" }

abbrev globex : Tenant
globex = record acme { object_meta = record (acme.object_meta) { name = "globex" } }

-- A cluster with one tenant, which is provisioned when its turn comes.
abbrev shared_host : Host
shared_host = record empty_host { tenants = λ _. some acme }

-- Another worker, which makes the namespace of a third tenant.
abbrev initech : Tenant
initech = record acme { object_meta = record (acme.object_meta) { name = "initech" } }

abbrev other_worker : Host → Host
other_worker w = (test_client.create Kind.namespace (host_namespace initech) w).1

other_worker-Acts :
    (w : Host)
    → Acts test_platform test_controller read test_platform-IsLawfulPlatform globex w
        (other_worker w)
unfolding string_eq
other_worker-Acts w =
    Acts.make initech Kind.namespace (host_namespace initech)
      (string_differs "initech" "globex" refl) ((refl, refl), refl) Acts.idle

acme_is_another :
    (t : Tenant)
    → ((interleaved test_platform other_worker).client.get Kind.tenant acme_key shared_host).0
      ≡ ok t
    → name_of t ≢ name_of globex
unfolding test_client string_eq
acme_is_another t found same = string_differs "acme" "globex" refl cc

abbrev after_acme : Host
after_acme =
    (reconcile (interleaved test_platform other_worker) test_controller acme_key shared_host).1

acme-Turns :
    Turns test_platform test_controller read test_platform-IsLawfulPlatform globex shared_host
      after_acme
acme-Turns = Turns.turn acme_key other_worker Turns.start other_worker-Acts acme_is_another

Turns-isolated_example :
    read Kind.secret (record { namespace = "tenant-globex"; name = "server-cert" }) after_acme
    ≡ read Kind.secret (record { namespace = "tenant-globex"; name = "server-cert" }) shared_host
unfolding cluster_namespace_in_host
Turns-isolated_example =
    Turns-isolated test_platform test_controller read test_platform-IsLawfulPlatform globex
      acme-Turns Kind.secret (record { namespace = "tenant-globex"; name = "server-cert" }) refl

-- A running tenant at rest.
abbrev settled_host : Host
settled_host = record empty_host {
  tenants = λ _. some running;
  namespaces = λ _. some (record { object_meta = acme_meta });
}

and_false : (b : Bool) → (b && false) ≡ false
and_false true = refl
and_false false = refl

running-IsSettled :
    IsSettled test_platform test_controller read test_platform-IsLawfulPlatform running
unfolding get_conditions needs_provision has is_false get find tenant_setter test_machinery
    has_same_state string_eq lexicographic_less
running-IsSettled = record {
  held = refl;
  live = refl;
  ordered = (((and_false _, tt), (tt, tt)), (refl, (refl, tt)));
  enough = refl;
  ready = (_, (refl, refl));
  shown = refl;
}

running_found : (test_client.get Kind.tenant acme_key settled_host).0 ≡ ok running
unfolding test_client
running_found = refl

running_keyed : test_client.object_key Kind.tenant running ≡ acme_key
unfolding test_client
running_keyed = refl

running_namespace :
    IsPresent read Kind.namespace
      (test_client.object_key Kind.namespace (host_namespace running))
      settled_host
running_namespace = (_, refl)

reconcile_rests_example :
    read Kind.tenant acme_key (reconcile test_platform test_controller acme_key settled_host).1
    ≡ read Kind.tenant acme_key settled_host
reconcile_rests_example =
    reconcile_rests test_platform test_controller read test_platform-IsLawfulPlatform running
      acme_key settled_host running-IsSettled running_found running_keyed running_namespace
      Kind.tenant acme_key

-- The same with a second tenant, which has a turn after the run of the first.
abbrev globex_key : ObjectKey
globex_key = record { namespace = ""; name = "globex" }

abbrev company_host : Host
company_host = record settled_host {
  tenants = λ key. if acme_key == key then some running else some globex;
}

company_found : (test_client.get Kind.tenant acme_key company_host).0 ≡ ok running
unfolding test_client ObjectKey_eq string_eq
company_found = refl

abbrev key_of_server : ObjectKey
key_of_server = record { namespace = "tenant-acme"; name = "kube-apiserver" }

abbrev after_running : Host
after_running = (reconcile test_platform test_controller acme_key company_host).1

globex_left : read Kind.tenant globex_key after_running ≡ some globex
unfolding ObjectKey_eq string_eq
globex_left =
    reconcile_rests test_platform test_controller read test_platform-IsLawfulPlatform running
      acme_key company_host running-IsSettled company_found running_keyed (_, refl) Kind.tenant
      globex_key

globex_is_another :
    (t : Tenant)
    → ((interleaved test_platform (λ w. w)).client.get Kind.tenant globex_key after_running).0
      ≡ ok t
    → name_of t ≢ name_of running
unfolding string_eq
globex_is_another t found same = string_differs "globex" "acme" refl (
    ap (λ x. elim x [ none ↦ "globex" | some v ↦ name_of v ])
      (sym globex_left
        ∙ test_platform-IsLawfulPlatform.client.get-found Kind.tenant globex_key after_running t
            found)
    ∙ same)

settled_in_company_example :
    read Kind.deployment key_of_server
      (reconcile (interleaved test_platform (λ w. w)) test_controller globex_key after_running).1
    ≡ read Kind.deployment key_of_server company_host
unfolding cluster_namespace_in_host
settled_in_company_example =
    settled_in_company test_platform test_controller read test_platform-IsLawfulPlatform running
      (_, refl)
      (Shifts.others
        (Shifts.alone running acme_key Shifts.begin running-IsSettled refl company_found
          running_keyed)
        (Turns.turn globex_key (λ w. w) Turns.start (λ w. Acts.idle) globex_is_another))
      Kind.deployment key_of_server refl
