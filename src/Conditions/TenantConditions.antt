-- ===== src/Conditions/TenantConditions.antt =====
-- A Tenant as an object with conditions (tenant_types.go).
use multi_tenants.Base.{false, refl}
use multi_tenants.Api.{Tenant, get_conditions, set_conditions}
use multi_tenants.Conditions.Get.{Setter}
use multi_tenants.Conditions.Writing.{IsLawfulSetter}

instance unfoldable pub tenant_setter : Setter Tenant
tenant_setter = record {
  is_nil = λ _. false;
  get_conditions = get_conditions;
  set_conditions = set_conditions;
}

pub tenant_setter-IsLawfulSetter : IsLawfulSetter tenant_setter
unfolding tenant_setter get_conditions set_conditions
tenant_setter-IsLawfulSetter = record { get-set = λ cs t. refl }
