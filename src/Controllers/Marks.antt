-- ===== src/Controllers/Marks.antt =====
-- What the marks that `reconcileNormal` (tenant_controller.go) sets on a tenant change.
use multi_tenants.Base.{
  String, Bool, true, false, not, ◌≡◌, refl, ap, ◌==◌, string_eq, if◌then◌else◌,
}
use multi_tenants.Api.{Time, Tenant, get_conditions, set_conditions}
use multi_tenants.Conditions.{
  has, is_true, is_false, set, mark_true, mark_false, true_condition, false_condition,
}
use multi_tenants.Conditions.TenantConditions.{tenant_setter, tenant_setter-IsLawfulSetter}
use multi_tenants.Conditions.Reading.{IsUnique}
use multi_tenants.Conditions.Laws.{IsOrdered}
use multi_tenants.Conditions.Marking
use multi_tenants.Client.Server.{Lookup}
use multi_tenants.Controllers.Setup.{Platform}
use multi_tenants.Controllers.Footprint.{IsLawfulPlatform}

module _ {W : Type 0} (p : Platform W) (lookup : Lookup W) (lawful : IsLawfulPlatform p lookup)
    (b : Bool) (now : Time) (u : Tenant) (type reason message : String) where
  -- The tenant with the condition of the type marked true or false.
  abbrev pub marked : Tenant
  marked =
      if b
      then mark_true p.machinery p.sort_slice now u type reason message
      else mark_false p.machinery p.sort_slice now u type reason message

  -- Only the conditions change.
  pub marked-set_conditions : marked ≡ set_conditions (get_conditions marked) u
  unfolding mark_true mark_false true_condition false_condition tenant_setter set set_conditions
      get_conditions
  marked-set_conditions = by_status b
    where
      by_status :
          (x : Bool)
          → (let m =
                if x
                then mark_true p.machinery p.sort_slice now u type reason message
                else mark_false p.machinery p.sort_slice now u type reason message in
              m ≡ set_conditions (get_conditions m) u)
      by_status true = refl
      by_status false = refl

  pub marked-object_meta : marked.object_meta ≡ u.object_meta
  unfolding set_conditions
  marked-object_meta = ap (λ x. x.object_meta) marked-set_conditions

  pub marked-phase : marked.status.phase ≡ u.status.phase
  unfolding set_conditions
  marked-phase = ap (λ x. x.status.phase) marked-set_conditions

  module _ (unique : IsUnique (get_conditions u)) where
    pub marked-IsOrdered : IsOrdered (get_conditions marked)
    unfolding tenant_setter
    marked-IsOrdered =
        Marking.marked-IsOrdered tenant_setter-IsLawfulSetter p.machinery lawful.machinery
          p.sort_slice lawful.sorter now u refl unique type reason message b

    pub is_true-marked : (t : String) → is_true marked t ≡ (if type == t then b else is_true u t)
    unfolding tenant_setter
    is_true-marked t =
        Marking.is_true-marked tenant_setter-IsLawfulSetter p.machinery lawful.machinery
          p.sort_slice lawful.sorter now u refl unique type reason message b t

    pub is_false-marked :
        (t : String) → is_false marked t ≡ (if type == t then not b else is_false u t)
    unfolding tenant_setter
    is_false-marked t =
        Marking.is_false-marked tenant_setter-IsLawfulSetter p.machinery lawful.machinery
          p.sort_slice lawful.sorter now u refl unique type reason message b t

    pub has-marked : (t : String) → has marked t ≡ (if type == t then true else has u t)
    unfolding tenant_setter
    has-marked t =
        Marking.has-marked tenant_setter-IsLawfulSetter p.machinery lawful.machinery p.sort_slice
          lawful.sorter now u refl unique type reason message b t
