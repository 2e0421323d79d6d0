-- ===== src/Controllers/Setup.antt =====
-- What the controller is given: its fields, and the code outside that it calls.
use multi_tenants.Base.{String, none, List, [], ◌∷◌, Result}
use multi_tenants.Api.{
  Bytes, ObjectMeta, OwnerReference, Tenant, Machinery, cluster_namespace_in_host,
}
use multi_tenants.Conditions.{Sorter}
use multi_tenants.Client.{Client, Converter}
use multi_tenants.Secret.{Crypto}
use multi_tenants.KubeConfig.{ApiConfig}

pub record Platform (W : Type 0) : Type 1 where
  pub client : Client W
  pub machinery : Machinery
  pub converter : Converter
  pub crypto : Crypto W
  pub sort_slice : Sorter
  -- `clientcmd.Write`
  pub write_config : ApiConfig → Result Bytes

-- The struct, whose `Client` is in the platform.
pub record TenantController : Type 0 where
  pub etcd_secret : List (String × Bytes)
  pub etcd_servers : String

-- The one owner reference that is put on every object.
abbrev pub owner_of : Tenant → List OwnerReference
owner_of t =
    record {
      api_version = t.api_version;
      kind = t.kind;
      name = t.object_meta.name;
      uid = t.object_meta.uid;
    }
    ∷ []

-- `metav1.ObjectMeta{Namespace: tenant.ClusterNamespaceInHost(), Name: name}`
abbrev pub meta_in_host : Tenant → String → ObjectMeta
meta_in_host t name = record {
  name = name;
  namespace = cluster_namespace_in_host t;
  uid = "";
  owner_references = [];
  finalizers = [];
  deletion_timestamp = none;
}

abbrev pub owned : Tenant → ObjectMeta → ObjectMeta
owned t o = record o { owner_references = owner_of t }
