-- ===== src/Tests/ControllerExamples.antt =====
-- The theorems on the controller at concrete tenants and host clusters.
use multi_tenants.Base.{
  String, true, false, ◌≡◌, ◌≢◌, refl, some, [], ◌∷◌, ok, Returns, Ensures, ◌==◌, string_eq, nat_eq,
  if◌then◌else◌, ◌>>=◌, lookup,
}
use multi_tenants.Api.{
  Kind, ObjectKey, ObjectKey_eq, Secret, Deployment, Tenant, TenantPhase, get_conditions, is_phase,
}
use multi_tenants.Conditions.{find, get, has, is_false}
use multi_tenants.Conditions.Reading.{IsUnique}
use multi_tenants.Conditions.TenantConditions.{tenant_setter}
use multi_tenants.Secret.Certs.{encode_cert_pem, encode_private_key_pem}
use multi_tenants.ControllerUtil.{create_if_not_exists}
use multi_tenants.Controllers.Secrets.{endpoint, fill_server_cert, parse_ca_secret, new_secret}
use multi_tenants.Controllers.ApiServer.{new_deployment, new_service}
use multi_tenants.Controllers.Normal.{
  host_namespace, no_requeue, check_ready, provision, needs_provision, ensure_namespace,
  reconcile_normal,
}
use multi_tenants.Controllers.Phase.{reconcile_phase}
use multi_tenants.Controllers.Reconcile.{tenant_finalizer, handle_tenant, reconcile}
use multi_tenants.Controllers.PhaseLaws.{expected_phase, reconcile_phase-priority}
use multi_tenants.Controllers.Lifecycle.{holds, pass, with_phase, deletion_in_two_passes}
use multi_tenants.Controllers.Run.{reconcile-SlotStep}
use multi_tenants.Controllers.Footprint.{SlotStep}
use multi_tenants.Controllers.Completeness.{IsProvisioned, provision-Ensures}
use multi_tenants.Controllers.Done.{IsDone, reconcile_normal-IsDone}
use multi_tenants.Controllers.Material.{
  HasAuthority, fill_server_cert-HasAuthority, parse_ca_secret-HasAuthority,
}
use multi_tenants.Controllers.Endpoint.{service_url, endpoint_misses_service}
use multi_tenants.Tests.Machines.{test_machinery, test_machinery-IsLawfulMachinery}
use multi_tenants.Tests.Server.{Host, read, test_client}
use multi_tenants.Tests.Keys.{
  test_crypto, test_crypto-IsLawfulCrypto, test_ca, test_ca_parsed, test_ca_matched, test_key,
  test_now,
}
use multi_tenants.Tests.Setting.{
  test_platform, test_platform-IsLawfulPlatform, test_controller, acme, running, deleted, unclaimed,
  empty_host,
}

abbrev server_cert_key : ObjectKey
server_cert_key = record { namespace = "tenant-acme"; name = "server-cert" }

abbrev listed_host : Host
listed_host = record empty_host { tenants = λ _. some acme }

abbrev acme_key : ObjectKey
acme_key = record { namespace = ""; name = "acme" }

acme_found : (test_client.get Kind.tenant acme_key listed_host).0 ≡ ok acme
unfolding test_client
acme_found = refl

secret≢tenant : Kind.secret ≡ Kind.tenant → ⊥
secret≢tenant e = cc

reconcile-SlotStep_example :
    SlotStep read acme Kind.secret server_cert_key listed_host
      (reconcile test_platform test_controller acme_key listed_host).1
reconcile-SlotStep_example =
    reconcile-SlotStep test_platform test_controller read test_platform-IsLawfulPlatform Kind.secret
      secret≢tenant server_cert_key acme listed_host acme_key acme_found

provision-Ensures_example :
    Ensures
      (IsProvisioned test_platform test_controller read test_platform-IsLawfulPlatform acme)
      (provision test_platform test_controller acme)
provision-Ensures_example =
    provision-Ensures test_platform test_controller read test_platform-IsLawfulPlatform acme

reconcile_phase-priority_example :
    reconcile_phase test_machinery deleted
    ≡ record deleted { status = record (deleted.status) { phase = expected_phase deleted } }
reconcile_phase-priority_example =
    reconcile_phase-priority test_machinery test_machinery-IsLawfulMachinery deleted

unclaimed-lacks :
    holds test_platform test_controller test_machinery-IsLawfulMachinery unclaimed tenant_finalizer
    ≡ false
unfolding test_machinery
unclaimed-lacks = refl

deleted-holds :
    holds test_platform test_controller test_machinery-IsLawfulMachinery deleted tenant_finalizer
    ≡ true
unfolding test_machinery string_eq
deleted-holds = refl

deleted_early : is_phase deleted.status TenantPhase.terminating ≡ false
unfolding is_phase string_eq
deleted_early = refl

abbrev deleted_pass : Tenant
deleted_pass =
    pass test_platform test_controller test_machinery-IsLawfulMachinery deleted empty_host

deletion_in_two_passes_example :
    ((handle_tenant test_platform test_controller deleted empty_host).world ≡ empty_host)
    × ((handle_tenant test_platform test_controller deleted_pass empty_host).world ≡ empty_host)
    × (deleted_pass ≡ with_phase "Terminating" deleted)
    × ((f : String)
        → holds test_platform test_controller test_machinery-IsLawfulMachinery
            (pass test_platform test_controller test_machinery-IsLawfulMachinery deleted_pass
              empty_host)
            f
          ≡ (if tenant_finalizer == f
              then false
              else holds test_platform test_controller test_machinery-IsLawfulMachinery deleted f))
unfolding nat_eq
deletion_in_two_passes_example =
    deletion_in_two_passes test_platform test_controller test_machinery-IsLawfulMachinery deleted
      empty_host empty_host deleted-holds refl deleted_early

endpoint_misses_service_example :
    endpoint test_platform acme ≢ service_url (new_service acme "kube-apiserver")
endpoint_misses_service_example = endpoint_misses_service test_platform acme

fill_server_cert-HasAuthority_example :
    Returns
      (λ s. HasAuthority test_platform s.contents)
      (fill_server_cert test_platform test_controller acme (new_secret acme "server-cert"))
fill_server_cert-HasAuthority_example =
    fill_server_cert-HasAuthority test_platform test_crypto-IsLawfulCrypto test_controller acme
      (new_secret acme "server-cert")

-- A server-cert secret, on a server that holds nothing else.
abbrev stored : Secret
stored = record (new_secret acme "server-cert") {
  contents =
      ("ca.crt", encode_cert_pem test_crypto test_ca)
      ∷ ("ca.key", encode_private_key_pem test_crypto test_key)
      ∷ [];
}

stored-HasAuthority : HasAuthority test_platform stored.contents
unfolding lookup string_eq
stored-HasAuthority = record {
  ca = test_ca;
  key = test_key;
  crt_held = refl;
  key_held = refl;
  authority = record {
    is_ca = refl;
    common_name = refl;
    organization = refl;
    key_usage = refl;
    serial_number = refl;
    clock = (test_now, (refl, refl));
    readable = (0 ∷ 2048 ∷ [], test_ca_parsed);
  };
  matched = test_ca_matched;
}

abbrev storing_host : Host
storing_host = record empty_host { secrets = λ _. some stored }

stored_got : (test_client.get Kind.secret server_cert_key storing_host).0 ≡ ok stored
unfolding test_client
stored_got = refl

parse_ca_secret-HasAuthority_example :
    (parse_ca_secret test_platform "tenant-acme" "server-cert" storing_host).0
    ≡ ok (stored-HasAuthority.ca, test_crypto.signer stored-HasAuthority.key)
parse_ca_secret-HasAuthority_example =
    parse_ca_secret-HasAuthority test_platform test_crypto-IsLawfulCrypto "tenant-acme"
      "server-cert" storing_host stored stored-HasAuthority stored_got

-- A host cluster where the deployments of the tenant are up.
abbrev up : Deployment
up = record (new_deployment acme "kube-apiserver") {
  status = record { replicas = 1; ready_replicas = 1 };
}

abbrev running_host : Host
running_host = record empty_host {
  namespaces = λ _. some (host_namespace acme);
  deployments = λ _. some up;
}

running-IsUnique : IsUnique (get_conditions running)
unfolding get_conditions find string_eq
running-IsUnique = (refl, (refl, tt))

running_result :
    (reconcile_normal test_platform test_controller running running_host).result ≡ ok no_requeue
unfolding reconcile_normal check_ready ◌>>=◌ test_client nat_eq create_if_not_exists needs_provision
    has is_false get find get_conditions tenant_setter string_eq ensure_namespace
running_result = refl

reconcile_normal-IsDone_example :
    IsDone read running (reconcile_normal test_platform test_controller running running_host)
reconcile_normal-IsDone_example =
    reconcile_normal-IsDone test_platform test_controller read test_platform-IsLawfulPlatform
      running running_host no_requeue running-IsUnique running_result refl
