-- ===== src/Controllers/PhaseLaws.antt =====
-- `reconcilePhase` (tenant_controller_phase.go) against a table of priorities.
use multi_tenants.Base.{
  String, Bool, false, not, ◌≡◌, refl, Option, none, some, List, [], ◌∷◌, arith, ◌==◌, string_eq,
  nat_eq, if◌then◌else◌,
}
use multi_tenants.Api.{
  Time, Condition, Tenant, TenantStatus, Machinery, IsLawfulMachinery, set_phase,
  tenant_condition_provisioned, tenant_condition_ready, condition_true, condition_false,
}
use multi_tenants.Conditions.{find}
use multi_tenants.Controllers.Phase.{phase_steps, reconcile_phase}

-- A deletion time other than Go's zero time is set.
abbrev pub is_deleting : Option Time → Bool
is_deleting none = false
is_deleting (some t) = not (t == 0)

abbrev pub has_status : Option Condition → String → Bool
has_status none s = false
has_status (some c) s = c.status == s

-- The first test that holds, from the strongest to the weakest, names the phase.
unfoldable pub expected_phase : Tenant → String
expected_phase t =
    let ready = find t.status.conditions tenant_condition_ready in
    let provisioned = find t.status.conditions tenant_condition_provisioned in
    if is_deleting t.object_meta.deletion_timestamp
    then "Terminating"
    else if has_status ready condition_true
    then "Ready"
    else if has_status ready condition_false
    then "Failed"
    else if has_status provisioned condition_true
    then "Provisioned"
    else if has_status provisioned condition_false
    then "Provisioning"
    else if t.status.phase == ""
    then "Pending"
    else t.status.phase

module _ (m : Machinery) (lawful : IsLawfulMachinery m) where
  open lawful use {is_zero-none, is_zero-some, true-nil, true-cons, false-nil, false-cons}

  true-find :
      (cs : List Condition) (t : String)
      → m.is_status_condition_true cs t ≡ has_status (find cs t) condition_true
  unfolding find
  true-find [] t = true-nil t
  true-find (c ∷ cs) t = ground (arith, true-cons c cs t, true-find cs t)

  false-find :
      (cs : List Condition) (t : String)
      → m.is_status_condition_false cs t ≡ has_status (find cs t) condition_false
  unfolding find
  false-find [] t = false-nil t
  false-find (c ∷ cs) t = ground (arith, false-cons c cs t, false-find cs t)

  pub is_zero-deleting : (o : Option Time) → not (m.is_zero o) ≡ is_deleting o
  is_zero-deleting none = rw is_zero-none refl
  is_zero-deleting (some t) = rw (is_zero-some t) refl

  -- Six tests in a row on the same conditions, the last of which wins.
  phase_steps-last :
      (t : Tenant) (s : TenantStatus)
      → phase_steps m t s ≡ record s {
        phase =
            if not (m.is_zero t.object_meta.deletion_timestamp)
            then "Terminating"
            else if m.is_status_condition_true s.conditions tenant_condition_ready
            then "Ready"
            else if m.is_status_condition_false s.conditions tenant_condition_ready
            then "Failed"
            else if m.is_status_condition_true s.conditions tenant_condition_provisioned
            then "Provisioned"
            else if m.is_status_condition_false s.conditions tenant_condition_provisioned
            then "Provisioning"
            else if s.phase == ""
            then "Pending"
            else s.phase;
      }
  unfolding phase_steps set_phase
  phase_steps-last t s = ground arith

  -- The six tests of reconcilePhase give the phase that a table of priorities names: being
  -- deleted, then the Ready condition, then the Provisioned condition, then the phase before,
  -- where an empty one becomes Pending. Nothing else of the tenant changes. The code outside
  -- behaves as documented.
  pub reconcile_phase-priority :
      (t : Tenant)
      → reconcile_phase m t ≡ record t { status = record (t.status) { phase = expected_phase t } }
  unfolding reconcile_phase expected_phase
  reconcile_phase-priority t =
      rw
        (
          reconcile_phase,
          phase_steps-last t t.status,
          true-find,
          true-find,
          false-find,
          false-find,
          is_zero-deleting,
        )
        refl
