-- ===== src/Api/Tenants.antt =====
-- pkg/apis/tenancy/v1alpha1: tenant_types.go, tenant_phase_types.go, tenant_condition_types.go.
use multi_tenants.Base.{String, ◌<>◌, Bool, List, ◌==◌, string_eq}
use multi_tenants.Api.Meta.{ObjectMeta, Condition}

pub data TenantPhase : Type 0 where
  pending provisioning provisioned ready failed terminating unknown : TenantPhase

-- `string(p)`
abbrev pub phase_text : TenantPhase → String
phase_text TenantPhase.pending = "Pending"
phase_text TenantPhase.provisioning = "Provisioning"
phase_text TenantPhase.provisioned = "Provisioned"
phase_text TenantPhase.ready = "Ready"
phase_text TenantPhase.failed = "Failed"
phase_text TenantPhase.terminating = "Terminating"
phase_text TenantPhase.unknown = "Unknown"

abbrev pub tenant_condition_provisioned : String
tenant_condition_provisioned = "Provisioned"

abbrev pub tenant_condition_ready : String
tenant_condition_ready = "Ready"

pub record TenantStatus : Type 0 where
  pub phase : String
  pub conditions : List Condition

-- The empty struct `TenantSpec` has no field here.
pub record Tenant : Type 0 where
  pub api_version : String
  pub kind : String
  pub object_meta : ObjectMeta
  pub status : TenantStatus

unfoldable pub is_phase : TenantStatus → TenantPhase → Bool
is_phase t p = t.phase == phase_text p

unfoldable pub set_phase : TenantPhase → TenantStatus → TenantStatus
set_phase p t = record t { phase = phase_text p }

unfoldable pub cluster_namespace_in_host : Tenant → String
cluster_namespace_in_host t = "tenant-" <> t.object_meta.name

unfoldable pub get_conditions : Tenant → List Condition
get_conditions t = t.status.conditions

unfoldable pub set_conditions : List Condition → Tenant → Tenant
set_conditions conditions t = record t { status = record (t.status) { conditions = conditions } }
