-- ===== src/Tests/ConditionExamples.antt =====
-- The theorems on conditions at a running tenant.
use multi_tenants.Base.{false, ◌≡◌, refl, some, ◌==◌, string_eq, if◌then◌else◌}
use multi_tenants.Api.{Condition, get_conditions}
use multi_tenants.Conditions.{find, get, set, truncate_to_second}
use multi_tenants.Conditions.Reading.{IsUnique}
use multi_tenants.Conditions.Writing.{settled}
use multi_tenants.Conditions.Laws.{IsOrdered, get-set_lem, set-IsOrdered, set_any_sort}
use multi_tenants.Conditions.TenantConditions.{tenant_setter, tenant_setter-IsLawfulSetter}
use multi_tenants.Tests.Machines.{
  test_machinery, test_machinery-IsLawfulMachinery, test_sort, test_sort-IsLawfulSorter,
}
use multi_tenants.Tests.Keys.{test_now}
use multi_tenants.Tests.Setting.{running, ready_condition}

abbrev failed : Condition
failed = record ready_condition { status = "False"; reason = "Crash" }

running-IsUnique : IsUnique (tenant_setter.get_conditions running)
unfolding tenant_setter get_conditions find string_eq
running-IsUnique = (refl, (refl, tt))

running_live : tenant_setter.is_nil running ≡ false
unfolding tenant_setter
running_live = refl

get-set_lem_example :
    get (set test_machinery test_sort test_now running (some failed)).0 "Ready" ≡ (
      if failed.type == "Ready"
      then some (settled (truncate_to_second test_now) (get running failed.type) failed)
      else get running "Ready")
get-set_lem_example =
    get-set_lem tenant_setter-IsLawfulSetter test_machinery test_machinery-IsLawfulMachinery
      test_sort test_sort-IsLawfulSorter test_now running failed "Ready" running_live
      running-IsUnique

set-IsOrdered_example :
    IsOrdered
      (tenant_setter.get_conditions (set test_machinery test_sort test_now running (some failed)).0)
set-IsOrdered_example =
    set-IsOrdered tenant_setter-IsLawfulSetter test_machinery test_machinery-IsLawfulMachinery
      test_sort test_sort-IsLawfulSorter test_now running failed running_live running-IsUnique

set_any_sort_example :
    tenant_setter.get_conditions (set test_machinery test_sort test_now running (some failed)).0
    ≡ tenant_setter.get_conditions (set test_machinery test_sort test_now running (some failed)).0
set_any_sort_example =
    set_any_sort tenant_setter-IsLawfulSetter test_machinery test_machinery-IsLawfulMachinery
      test_sort test_sort test_sort-IsLawfulSorter test_sort-IsLawfulSorter test_now running failed
      running_live running-IsUnique
