-- ===== src/Tests/Setting.antt =====
-- The platform of the examples: the parameters together, a tenant, and a host cluster.
use multi_tenants.Base.{String, refl, Option, none, some, List, [], ◌∷◌, Result, ok, string_eq}
use multi_tenants.Api.{
  Kind, Object, ObjectKey, ObjectKey_eq, ObjectMeta, Condition, Tenant, condition_true,
}
use multi_tenants.Client.{Converter}
use multi_tenants.Controllers.{Platform, TenantController}
use multi_tenants.Controllers.Footprint.{IsLawfulPlatform}
use multi_tenants.Tests.Machines.{
  test_machinery, test_machinery-IsLawfulMachinery, test_sort, test_sort-IsLawfulSorter,
}
use multi_tenants.Tests.Server.{Host, key_of, read, test_client, test_client-IsLawfulClient}
use multi_tenants.Tests.Keys.{test_crypto, test_crypto-IsLawfulCrypto}

-- An object in unstructured form: its key and finalizers, and its phase.
abbrev Plain : Type 0
Plain = (ObjectKey × List String) × Option String

plain_dec : Discrete Plain
plain_dec = hlevel (string_eq.dec, ObjectKey_eq.dec)

abbrev plain : (k : Kind) → Object k → Result Plain
plain Kind.tenant o = ok ((key_of Kind.tenant o, o.object_meta.finalizers), some o.status.phase)
plain Kind.namespace o = ok ((key_of Kind.namespace o, o.object_meta.finalizers), none)
plain Kind.secret o = ok ((key_of Kind.secret o, o.object_meta.finalizers), none)
plain Kind.deployment o = ok ((key_of Kind.deployment o, o.object_meta.finalizers), none)
plain Kind.service o = ok ((key_of Kind.service o, o.object_meta.finalizers), none)

abbrev set_phase : Option String → Tenant → Tenant
set_phase none o = o
set_phase (some phase) o = record o { status = record (o.status) { phase = phase } }

abbrev pub set_fields : (k : Kind) → Plain → Object k → Object k
set_fields Kind.tenant u o = set_phase u.1 o
set_fields Kind.namespace u o = o
set_fields Kind.secret u o = o
set_fields Kind.deployment u o = o
set_fields Kind.service u o = o

unfoldable pub test_converter : Converter
unfolding plain_dec
test_converter = record {
  Unstructured = Plain;
  Value = String;
  unstructured_eq = record { dec = plain_dec };
  value_eq = string_eq;
  to_unstructured = plain;
  from_unstructured = λ k u o. ok (set_fields k u o);
  nested_status = λ u. ok u.1;
  remove_status = λ u. (u.0, none);
  set_status = λ u s. ok (u.0, s);
}

abbrev pub test_platform : Platform Host
test_platform = record {
  client = test_client;
  machinery = test_machinery;
  converter = test_converter;
  crypto = test_crypto;
  sort_slice = test_sort;
  write_config = λ config. ok [];
}

pub test_platform-IsLawfulPlatform : IsLawfulPlatform test_platform read
unfolding test_crypto
test_platform-IsLawfulPlatform = record {
  client = test_client-IsLawfulClient;
  machinery = test_machinery-IsLawfulMachinery;
  sorter = test_sort-IsLawfulSorter;
  crypto = test_crypto-IsLawfulCrypto;
  now-reads = λ k slot w. refl;
  generate_key-reads = λ k slot bits w. refl;
  create_certificate-reads = λ k slot t parent key s w. refl;
}

abbrev pub test_controller : TenantController
test_controller = record {
  etcd_secret =
      ("etcd-ca.crt", 7 ∷ [])
      ∷ ("apiserver-etcd-client.crt", 8 ∷ [])
      ∷ ("apiserver-etcd-client.key", 9 ∷ [])
      ∷ [];
  etcd_servers = "https://etcd:2379";
}

abbrev pub acme_meta : ObjectMeta
acme_meta = record {
  name = "acme";
  namespace = "";
  uid = "1";
  owner_references = [];
  finalizers = "tenancy.kcp.io/tenants" ∷ [];
  deletion_timestamp = none;
}

abbrev pub ready_condition : Condition
ready_condition = record {
  type = "Ready";
  status = condition_true;
  last_transition_time = 1_000_000_000;
  reason = "Success";
  message = "Ready";
}

abbrev pub provisioned_condition : Condition
provisioned_condition = record {
  type = "Provisioned";
  status = condition_true;
  last_transition_time = 1_000_000_000;
  reason = "Success";
  message = "Success to provision";
}

-- A tenant that holds the finalizer and has nothing yet, a running one, and one that is deleted.
abbrev pub acme : Tenant
acme = record {
  api_version = "tenancy.kcp.io/v1alpha1";
  kind = "Tenant";
  object_meta = acme_meta;
  status = record { phase = ""; conditions = [] };
}

abbrev pub running : Tenant
running = record acme {
  status = record { phase = "Ready"; conditions = ready_condition ∷ provisioned_condition ∷ [] };
}

abbrev pub deleted : Tenant
deleted = record running { object_meta = record acme_meta { deletion_timestamp = some 5 } }

abbrev pub unclaimed : Tenant
unclaimed = record acme { object_meta = record acme_meta { finalizers = [] } }

abbrev pub empty_host : Host
empty_host = record {
  tenants = λ _. none;
  namespaces = λ _. none;
  secrets = λ _. none;
  deployments = λ _. none;
  services = λ _. none;
}
