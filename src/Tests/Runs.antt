-- ===== src/Tests/Runs.antt =====
-- A run of the controller that succeeds in the host cluster of the examples.
use multi_tenants.Base.{
  true, false, none, some, sym, subst, if◌then◌else◌, ◌==◌, ◌≡◌, refl, ok, ◌>>=◌, string_eq, nat_eq,
  lookup, insert, insert_all,
}
use multi_tenants.Api.{get_conditions, ObjectKey_eq, cluster_namespace_in_host}
use multi_tenants.Secret.Certificates.{new_ca, new_cert_and_key, new_pub_and_key, explain, time_now}
use multi_tenants.Secret.Certs.{
  encode_cert_pem, encode_private_key_pem, encode_public_key_pem, decode_cert_pem,
  decode_private_key_pem,
}
use multi_tenants.KubeConfig.{new_with_secret}
use multi_tenants.ControllerUtil.{create_if_not_exists}
use multi_tenants.Controllers.Secrets.{
  new_material, server_cert_contents, fill_server_cert, reconcile_secret, entry, parse_ca_secret,
  fill_kube_config, create_kube_config, reconcile_kube_config,
}
use multi_tenants.Controllers.ApiServer.{fill_deployment, fill_service, reconcile_api_server}
use multi_tenants.Controllers.ControllerManager.{reconcile_controller_manager}
use multi_tenants.Conditions.{find, get, has, is_true, is_false}
use multi_tenants.Conditions.TenantConditions.{tenant_setter}
use multi_tenants.Controllers.Normal.{
  provision, ensure_namespace, needs_provision, check_ready, check_deploy, requeue_soon,
}
use multi_tenants.Controllers.Reconcile.{handle_tenant}
use multi_tenants.Controllers.Lifecycle.{pass}
use multi_tenants.Controllers.Waiting.{IsUnready, checked_world, waiting_pass}
use multi_tenants.Tests.Machines.{test_machinery}
use multi_tenants.Tests.Server.{Host, read, test_client}
use multi_tenants.Tests.Keys.{test_crypto}
use multi_tenants.Controllers.Files.{strip_prefix}
use multi_tenants.Controllers.Deployed.{IsUndeployed}
use multi_tenants.Controllers.Workloads.{IsServed, provision-IsServed}
use multi_tenants.Controllers.Supplied.{IsSupplied, provision-IsSupplied}
use multi_tenants.Tests.Setting.{
  test_platform, test_platform-IsLawfulPlatform, test_controller, acme, acme_meta, empty_host,
}

-- From an empty host cluster all four phases succeed.
provision_succeeds : (provision test_platform test_controller acme empty_host).0 ≡ ok tt
unfolding provision reconcile_secret reconcile_kube_config reconcile_api_server
    reconcile_controller_manager create_kube_config fill_kube_config parse_ca_secret entry
    fill_server_cert server_cert_contents new_material fill_deployment fill_service
    create_if_not_exists new_with_secret encode_cert_pem encode_private_key_pem
    encode_public_key_pem decode_cert_pem decode_private_key_pem new_ca new_cert_and_key
    new_pub_and_key explain time_now ◌>>=◌ string_eq nat_eq lookup insert insert_all ObjectKey_eq
    cluster_namespace_in_host test_machinery test_client test_crypto
provision_succeeds = refl

nothing_deployed : IsUndeployed test_platform read test_platform-IsLawfulPlatform acme empty_host
nothing_deployed = record { api_server = refl; service = refl; manager = refl }

-- The server has the secrets that the containers of that control plane read.
provision-IsSupplied_example :
    IsSupplied test_platform read test_platform-IsLawfulPlatform acme test_controller
      (provision test_platform test_controller acme empty_host).1
unfolding strip_prefix nat_eq string_eq lookup
provision-IsSupplied_example =
    provision-IsSupplied test_platform read test_platform-IsLawfulPlatform acme test_controller
      empty_host (record { ca = (_, refl); crt = (_, refl); key = (_, refl) }) refl refl refl refl
      nothing_deployed provision_succeeds

-- The Deployments and the Service are there too.
provision-IsServed_example :
    IsServed test_platform test_controller read test_platform-IsLawfulPlatform acme
      (provision test_platform test_controller acme empty_host).1
provision-IsServed_example =
    provision-IsServed test_platform test_controller read test_platform-IsLawfulPlatform acme
      empty_host nothing_deployed provision_succeeds

-- The API server of the tenant is there, and its one replica is not ready.
abbrev lagging_host : Host
lagging_host = record empty_host {
  deployments = λ key.
      if key.name == "kube-apiserver"
      then some (record {
        object_meta = acme_meta;
        spec = none;
        status = record { replicas = 1; ready_replicas = 0 };
      })
      else none;
}

lagging_namespace : (ensure_namespace test_platform test_controller acme lagging_host).0 ≡ ok tt
unfolding ensure_namespace create_if_not_exists ◌>>=◌ string_eq ObjectKey_eq test_machinery
    test_client cluster_namespace_in_host nat_eq
lagging_namespace = refl

lagging_needs : needs_provision test_platform test_controller acme ≡ true
unfolding needs_provision has is_false get find get_conditions tenant_setter
lagging_needs = refl

lagging_provisions :
    (provision test_platform test_controller acme
      (ensure_namespace test_platform test_controller acme lagging_host).1).0
    ≡ ok tt
unfolding ensure_namespace provision reconcile_secret reconcile_kube_config reconcile_api_server
    reconcile_controller_manager create_kube_config fill_kube_config parse_ca_secret entry
    fill_server_cert server_cert_contents new_material fill_deployment fill_service
    create_if_not_exists new_with_secret encode_cert_pem encode_private_key_pem
    encode_public_key_pem decode_cert_pem decode_private_key_pem new_ca new_cert_and_key
    new_pub_and_key explain time_now ◌>>=◌ string_eq nat_eq lookup insert insert_all ObjectKey_eq
    cluster_namespace_in_host test_machinery test_client test_crypto
lagging_provisions = refl

lagging_waits :
    (check_ready test_platform test_controller acme (
      checked_world test_platform test_controller read test_platform-IsLawfulPlatform acme
        lagging_host)).0
    ≡ ok requeue_soon
unfolding check_ready check_deploy ensure_namespace provision reconcile_secret reconcile_kube_config
    reconcile_api_server reconcile_controller_manager create_kube_config fill_kube_config
    parse_ca_secret entry fill_server_cert server_cert_contents new_material fill_deployment
    fill_service create_if_not_exists new_with_secret encode_cert_pem encode_private_key_pem
    encode_public_key_pem decode_cert_pem decode_private_key_pem new_ca new_cert_and_key
    new_pub_and_key explain time_now ◌>>=◌ string_eq nat_eq lookup insert insert_all ObjectKey_eq
    cluster_namespace_in_host test_machinery test_client test_crypto
lagging_waits = refl

lagging-IsUnready :
    IsUnready
      (check_ready test_platform test_controller acme (
        checked_world test_platform test_controller read test_platform-IsLawfulPlatform acme
          lagging_host)).0
lagging-IsUnready = subst IsUnready (sym lagging_waits) refl

waiting_pass_example :
    ((handle_tenant test_platform test_controller acme lagging_host).result
      ≡ (check_ready test_platform test_controller acme (
          checked_world test_platform test_controller read test_platform-IsLawfulPlatform acme
            lagging_host)).0)
    × ((pass test_platform test_controller test_platform-IsLawfulPlatform.machinery acme
          lagging_host).status.phase
        ≡ "Provisioned")
    × (needs_provision test_platform test_controller (
          pass test_platform test_controller test_platform-IsLawfulPlatform.machinery acme
            lagging_host)
        ≡ false)
unfolding get_conditions is_true is_false get find tenant_setter test_machinery string_eq
waiting_pass_example =
    waiting_pass test_platform test_controller read test_platform-IsLawfulPlatform acme lagging_host
      refl refl tt lagging_namespace lagging_needs lagging_provisions lagging-IsUnready refl refl
