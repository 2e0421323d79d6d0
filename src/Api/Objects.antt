-- ===== src/Api/Objects.antt =====
-- `client.Object`: the kinds of object that the manager handles.
use multi_tenants.Base.{String, Option, List}
use multi_tenants.Api.Meta.{Bytes, ObjectMeta}
use multi_tenants.Api.Tenants.{Tenant}
use multi_tenants.Api.Workload.{DeploymentSpec, DeploymentStatus, ServiceSpec}

pub record Namespace : Type 0 where
  pub object_meta : ObjectMeta

-- `contents` is the map `Data`.
pub record Secret : Type 0 where
  pub object_meta : ObjectMeta
  pub type : String
  pub contents : List (String × Bytes)

pub record Deployment : Type 0 where
  pub object_meta : ObjectMeta
  pub spec : Option DeploymentSpec
  pub status : DeploymentStatus

pub record Service : Type 0 where
  pub object_meta : ObjectMeta
  pub spec : Option ServiceSpec

pub data Kind : Type 0 where
  tenant namespace secret deployment service : Kind

pub Kind-discrete : Discrete Kind
Kind-discrete = hlevel

abbrev pub Object : Kind → Type 0
Object Kind.tenant = Tenant
Object Kind.namespace = Namespace
Object Kind.secret = Secret
Object Kind.deployment = Deployment
Object Kind.service = Service

abbrev pub meta_of : (k : Kind) → Object k → ObjectMeta
meta_of Kind.tenant o = o.object_meta
meta_of Kind.namespace o = o.object_meta
meta_of Kind.secret o = o.object_meta
meta_of Kind.deployment o = o.object_meta
meta_of Kind.service o = o.object_meta
