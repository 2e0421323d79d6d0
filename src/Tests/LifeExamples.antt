-- ===== src/Tests/LifeExamples.antt =====
-- The theorems on the life of a tenant at concrete tenants and host clusters.
use multi_tenants.Base.{
  true, false, ◌≡◌, refl, sym, subst, ◌⊎◌, some, none, [], ok, err, message, ◌==◌, string_eq,
  nat_eq, if◌then◌else◌, attempt, option_eq, ◌>>=◌, lookup, insert, insert_all,
}
use multi_tenants.Api.{
  Kind, ObjectKey, ObjectKey_eq, Tenant, is_phase, cluster_namespace_in_host, get_conditions,
}
use multi_tenants.Conditions.{find, get, has, is_true, is_false}
use multi_tenants.Conditions.TenantConditions.{tenant_setter}
use multi_tenants.Secret.Certificates.{new_ca, new_cert_and_key, new_pub_and_key, explain, time_now}
use multi_tenants.Secret.Certs.{
  encode_cert_pem, encode_private_key_pem, encode_public_key_pem, decode_cert_pem,
  decode_private_key_pem,
}
use multi_tenants.KubeConfig.{new_with_secret}
use multi_tenants.ControllerUtil.{create_if_not_exists, mutate}
use multi_tenants.ControllerUtil.Patch.{patch_if_exists, restore_status}
use multi_tenants.Controllers.Phase.{phase_steps, reconcile_phase}
use multi_tenants.Controllers.Secrets.{
  new_material, server_cert_contents, fill_server_cert, reconcile_secret, entry, parse_ca_secret,
  fill_kube_config, create_kube_config, reconcile_kube_config,
}
use multi_tenants.Controllers.ApiServer.{fill_deployment, fill_service, reconcile_api_server}
use multi_tenants.Controllers.ControllerManager.{reconcile_controller_manager}
use multi_tenants.Controllers.Normal.{
  provision, ensure_namespace, needs_provision, no_requeue, check_ready, check_deploy,
}
use multi_tenants.Controllers.Reconcile.{handle_tenant, reconcile}
use multi_tenants.Controllers.Lifecycle.{pass}
use multi_tenants.Controllers.Outcomes.{IsHealthy}
use multi_tenants.Controllers.Liveness.{ready_in_two_passes}
use multi_tenants.Controllers.Convergence.{healthy_pass_settles, settles_in_two_passes}
use multi_tenants.Controllers.Reachable.{Reaches, Reaches-IsConsistent}
use multi_tenants.Controllers.Invariant.{IsConsistent}
use multi_tenants.Controllers.Stages.{Move, stage}
use multi_tenants.Controllers.Refinement.{pass-Move}
use multi_tenants.Controllers.Failing.{provision_failure}
use multi_tenants.Controllers.Deferred.{IsGone, IsFinished, reconcile-ok}
use multi_tenants.Controllers.Stored.{IsStored, reconcile-IsStored}
use multi_tenants.Tests.Patches.{test_client-IsLawfulPatch}
use multi_tenants.Conditions.Reading.{IsUnique}
use multi_tenants.Tests.Machines.{test_machinery}
use multi_tenants.Tests.Server.{Host, read, test_client}
use multi_tenants.Tests.Keys.{test_crypto}
use multi_tenants.Tests.Setting.{
  test_converter, test_platform, test_platform-IsLawfulPlatform, test_controller, acme, acme_meta,
  deleted, unclaimed, empty_host,
}

abbrev next : Tenant → Host → Tenant
next t w = pass test_platform test_controller test_platform-IsLawfulPlatform.machinery t w

-- What the first pass over the unclaimed tenant leaves.
abbrev claimed : Tenant
claimed = record acme { status = record (acme.status) { phase = "Pending" } }

claimed-next : next unclaimed empty_host ≡ claimed
unfolding reconcile_phase phase_steps handle_tenant test_machinery string_eq
claimed-next = refl

claimed-IsHealthy :
    IsHealthy test_platform test_controller read test_platform-IsLawfulPlatform claimed empty_host
unfolding ensure_namespace needs_provision check_ready check_deploy provision reconcile_secret
    reconcile_kube_config reconcile_api_server reconcile_controller_manager create_kube_config
    fill_kube_config parse_ca_secret entry fill_server_cert server_cert_contents new_material
    fill_deployment fill_service create_if_not_exists new_with_secret encode_cert_pem
    encode_private_key_pem encode_public_key_pem decode_cert_pem decode_private_key_pem new_ca
    new_cert_and_key new_pub_and_key explain time_now ◌>>=◌ string_eq nat_eq lookup insert
    insert_all ObjectKey_eq cluster_namespace_in_host test_machinery test_client test_crypto has get
    find get_conditions tenant_setter
claimed-IsHealthy = record {
  namespace = refl;
  provisions = λ _. refl;
  ready_after = λ _. refl;
  ready_now = λ h. cc;
}

unclaimed-held : (test_machinery.contains_finalizer [] "tenancy.kcp.io/tenants") ≡ false
unfolding test_machinery
unclaimed-held = refl

abbrev first_world : Host
first_world = (handle_tenant test_platform test_controller unclaimed empty_host).world

first_world-empty : first_world ≡ empty_host
unfolding handle_tenant test_machinery
first_world-empty = refl

first-IsHealthy :
    IsHealthy test_platform test_controller read test_platform-IsLawfulPlatform
      (next unclaimed empty_host)
      first_world
first-IsHealthy =
    subst
      (λ u.
        IsHealthy test_platform test_controller read test_platform-IsLawfulPlatform u first_world)
      (sym claimed-next)
      (subst
        (λ w. IsHealthy test_platform test_controller read test_platform-IsLawfulPlatform claimed w)
        (sym first_world-empty) claimed-IsHealthy)

settles_in_two_passes_example :
    ((next (next unclaimed empty_host) first_world).status.phase ≡ "Ready")
    × ((later : Host)
        → next (next (next unclaimed empty_host) first_world) later
          ≡ next (next unclaimed empty_host) first_world)
unfolding get_conditions
settles_in_two_passes_example =
    settles_in_two_passes test_platform test_controller read test_platform-IsLawfulPlatform
      unclaimed empty_host first_world unclaimed-held refl tt first-IsHealthy

abbrev second_world : Host
second_world =
    (handle_tenant test_platform test_controller (next unclaimed empty_host) first_world).world

-- Two passes after the tenant was created.
second-Reaches :
    Reaches test_platform test_controller read test_platform-IsLawfulPlatform
      (next (next unclaimed empty_host) first_world)
      second_world
second-Reaches =
    Reaches.passed (next unclaimed empty_host) first_world
      (Reaches.passed unclaimed empty_host (Reaches.created unclaimed empty_host refl refl))

Reaches-IsConsistent_example :
    IsConsistent test_platform test_controller read test_platform-IsLawfulPlatform
      (next (next unclaimed empty_host) first_world)
      second_world
Reaches-IsConsistent_example =
    Reaches-IsConsistent test_platform test_controller read test_platform-IsLawfulPlatform
      (next (next unclaimed empty_host) first_world) second_world second-Reaches

second-phase : (next (next unclaimed empty_host) first_world).status.phase ≡ "Ready"
unfolding get_conditions
second-phase =
    ready_in_two_passes test_platform test_controller read test_platform-IsLawfulPlatform unclaimed
      empty_host first_world unclaimed-held refl tt first-IsHealthy

healthy_pass_settles_example :
    ((handle_tenant test_platform test_controller claimed empty_host).result ≡ ok no_requeue)
    × ((next claimed empty_host).status.phase ≡ "Ready")
    × ((later : Host) → next (next claimed empty_host) later ≡ next claimed empty_host)
unfolding get_conditions test_machinery string_eq
healthy_pass_settles_example =
    healthy_pass_settles test_platform test_controller read test_platform-IsLawfulPlatform claimed
      empty_host refl refl tt claimed-IsHealthy

pass-Move_example : Move (stage test_machinery acme) (stage test_machinery (next acme empty_host))
unfolding get_conditions
pass-Move_example =
    pass-Move test_platform test_controller read test_platform-IsLawfulPlatform acme empty_host tt

-- A host cluster with a secret of that name and nothing in it.
abbrev spoiled_host : Host
spoiled_host = record empty_host {
  secrets = λ key.
      if key.name == "server-cert"
      then some (record { object_meta = acme_meta; type = ""; contents = [] })
      else none;
}

provision_fails :
    (provision test_platform test_controller acme
      (ensure_namespace test_platform test_controller acme spoiled_host).1).0
    ≡ err (message "empty ca.crt")
unfolding ensure_namespace provision reconcile_secret reconcile_kube_config create_kube_config
    fill_kube_config parse_ca_secret entry create_if_not_exists ◌>>=◌ string_eq lookup ObjectKey_eq
    cluster_namespace_in_host test_machinery test_client nat_eq
provision_fails = refl

provision_failure_example :
    ((handle_tenant test_platform test_controller acme spoiled_host).result
      ≡ err (message "empty ca.crt"))
    × ((next acme spoiled_host).status.phase ≡ "Provisioning")
    × (needs_provision test_platform test_controller (next acme spoiled_host) ≡ true)
unfolding ensure_namespace create_if_not_exists needs_provision has is_true is_false get find
    get_conditions tenant_setter ◌>>=◌ string_eq ObjectKey_eq test_machinery test_client nat_eq
    cluster_namespace_in_host
provision_failure_example =
    provision_failure test_platform test_controller read test_platform-IsLawfulPlatform acme
      spoiled_host (message "empty ca.crt") refl refl tt refl refl provision_fails refl refl

abbrev acme_key : ObjectKey
acme_key = record { namespace = ""; name = "acme" }

abbrev deleted_host : Host
deleted_host = record empty_host { tenants = λ _. some deleted }

deleted_reconciles :
    (reconcile test_platform test_controller acme_key deleted_host).0 ≡ ok no_requeue
unfolding reconcile test_client attempt patch_if_exists test_machinery string_eq nat_eq is_phase
    ◌>>=◌ test_converter mutate ObjectKey_eq reconcile_phase option_eq
deleted_reconciles = refl

reconcile-ok_example :
    IsGone test_platform test_controller acme_key deleted_host no_requeue
    ⊎ IsFinished test_platform test_controller acme_key deleted_host no_requeue
reconcile-ok_example =
    reconcile-ok test_platform test_controller acme_key deleted_host no_requeue deleted_reconciles

abbrev unclaimed_host : Host
unclaimed_host = record empty_host { tenants = λ _. some unclaimed }

unclaimed_found : (test_client.get Kind.tenant acme_key unclaimed_host).0 ≡ ok unclaimed
unfolding test_client
unclaimed_found = refl

unclaimed_keyed : test_client.object_key Kind.tenant unclaimed ≡ acme_key
unfolding test_client
unclaimed_keyed = refl

unclaimed-IsUnique : IsUnique (get_conditions unclaimed)
unfolding get_conditions
unclaimed-IsUnique = tt

-- The finalizer and the phase are new, so both patches are sent.
unclaimed_reconciles :
    (reconcile test_platform test_controller acme_key unclaimed_host).0 ≡ ok no_requeue
unfolding reconcile test_client attempt patch_if_exists test_machinery string_eq nat_eq is_phase
    ◌>>=◌ test_converter mutate ObjectKey_eq reconcile_phase option_eq restore_status
unclaimed_reconciles = refl

reconcile-IsStored_example :
    IsStored test_platform test_controller read test_platform-IsLawfulPlatform
      test_client-IsLawfulPatch acme_key unclaimed unclaimed_host unclaimed_found unclaimed_keyed
      unclaimed-IsUnique refl
      (reconcile test_platform test_controller acme_key unclaimed_host).1
reconcile-IsStored_example =
    reconcile-IsStored test_platform test_controller read test_platform-IsLawfulPlatform
      test_client-IsLawfulPatch acme_key unclaimed unclaimed_host unclaimed_found unclaimed_keyed
      unclaimed-IsUnique refl no_requeue unclaimed_reconciles
