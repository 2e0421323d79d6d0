-- ===== src/Controllers/Reachable.antt =====
-- The states that a tenant and the host cluster can reach by passes of the reconciler
-- (tenant_controller.go), by others, and by deletion.
use mathlib.Core.Bool.{false≢true}
use multi_tenants.Base.{
  string_differs, String, Bool, true, false, ◌≡◌, refl, sym, ◌∙◌, subst, ◌⊎◌, inl, inr, Option,
  none, some, List, [], arith, ◌==◌, string_eq, if◌then◌else◌,
}
use multi_tenants.Api.{
  Time, Condition, ObjectMeta, Tenant, tenant_condition_ready, condition_true, get_conditions,
  set_conditions,
}
use multi_tenants.Conditions.{find, get, has, is_true, is_false}
use multi_tenants.Conditions.TenantConditions.{tenant_setter}
use multi_tenants.Conditions.Reading.{IsUnique}
use multi_tenants.Client.Server.{Lookup}
use multi_tenants.Controllers.Setup.{Platform, TenantController}
use multi_tenants.Controllers.PhaseLaws.{expected_phase, has_status}
use multi_tenants.Controllers.Normal.{needs_provision}
use multi_tenants.Controllers.Reconcile.{set_finalizers, handle_tenant}
use multi_tenants.Controllers.Footprint.{IsLawfulPlatform}
use multi_tenants.Controllers.Persistence.{
  KeepsObjects, IsProvisioned-KeepsObjects, IsProvisioned-meta,
}
use multi_tenants.Controllers.Lifecycle.{with_phase, pass}
use multi_tenants.Controllers.Passing.{IsPassed, pass-Holds}
use multi_tenants.Controllers.Invariant.{IsConsistent, IsConsistent-IsHandled, IsConsistent-world}

-- Which of the seven phases is "Ready".
phase_is_ready :
    (deleting ready failed done undone new : Bool) (before : String)
    → (if deleting
        then "Terminating"
        else if ready
        then "Ready"
        else if failed
        then "Failed"
        else if done
        then "Provisioned"
        else if undone
        then "Provisioning"
        else if new
        then "Pending"
        else before)
      ≡ "Ready"
    → (ready ≡ true) ⊎ (before ≡ "Ready")
unfolding string_eq
phase_is_ready deleting ready failed done undone new before h = ground (
  arith,
  string_differs "Terminating" "Ready" refl,
  string_differs "Failed" "Ready" refl,
  string_differs "Provisioned" "Ready" refl,
  string_differs "Provisioning" "Ready" refl,
  string_differs "Pending" "Ready" refl,
)

module _ {W : Type 0} (p : Platform W) (c : TenantController) (lookup : Lookup W)
    (lawful : IsLawfulPlatform p lookup) where
  expected_phase_ready :
      (u : Tenant)
      → expected_phase u ≡ "Ready"
      → (is_true u tenant_condition_ready ≡ true) ⊎ (u.status.phase ≡ "Ready")
  unfolding expected_phase is_true get get_conditions tenant_setter
  expected_phase_ready u h = elim (phase_is_ready _ _ _ _ _ _ _ h) [
    | inl e ↦ inl (by_condition (find u.status.conditions tenant_condition_ready) e)
    | inr e ↦ inr e
  ]
    where
      by_condition :
          (o : Option Condition)
          → has_status o condition_true ≡ true
          → elim o [ some x ↦ x.status == condition_true | none ↦ false ] ≡ true
      by_condition none e = e
      by_condition (some x) e = e

  -- Conditions, phase and name are all that counts.
  IsConsistent-meta :
      (t : Tenant) (w : W) (o : ObjectMeta)
      → t.object_meta.name ≡ o.name
      → IsConsistent p c lookup lawful t w
      → IsConsistent p c lookup lawful (record t { object_meta = o }) w
  unfolding needs_provision is_true is_false has get get_conditions tenant_setter
  IsConsistent-meta t w o same h = record {
    unique = h.unique;
    decided = h.decided;
    provisioned = λ e. IsProvisioned-meta p c lookup lawful _ t w same (h.provisioned e);
    ready = h.ready;
    shown = h.shown;
  }

  IsConsistent-phase :
      (u : Tenant) (w : W)
      → IsConsistent p c lookup lawful u w
      → IsConsistent p c lookup lawful (with_phase (expected_phase u) u) w
  unfolding needs_provision is_true is_false has get get_conditions tenant_setter
  IsConsistent-phase u w h = record {
    unique = h.unique;
    decided = h.decided;
    provisioned = λ e. IsProvisioned-meta p c lookup lawful _ u w refl (h.provisioned e);
    ready = h.ready;
    shown = λ e. elim (expected_phase_ready u e) [ inl q ↦ q | inr q ↦ h.shown q ];
  }

  IsConsistent-IsPassed :
      (t : Tenant) → IsPassed p c lookup lawful t (IsConsistent p c lookup lawful)
  IsConsistent-IsPassed t = record {
    handled = IsConsistent-IsHandled p c lookup lawful t;
    finalizers = λ fs w h. IsConsistent-meta t w _ refl h;
    phase = IsConsistent-phase;
  }

  abbrev delete_at : Option Time → Tenant → Tenant
  delete_at o t = record t { object_meta = record (t.object_meta) { deletion_timestamp = o } }

  -- A tenant and a host cluster after any number of steps from a new tenant: passes of the
  -- reconciler, changes of the cluster by others that take no object away, a request to delete
  -- the tenant, and changes of its finalizers by others.
  pub data Reaches : Tenant → W → Type 0 where
    created : (u : Tenant) (w : W) → u.status.conditions ≡ [] → u.status.phase ≡ "" → Reaches u w
    passed :
        (u : Tenant) (w : W)
        → Reaches u w
        → Reaches (pass p c lawful.machinery u w) (handle_tenant p c u w).world
    changed : (u : Tenant) (w w' : W) → KeepsObjects lookup w w' → Reaches u w → Reaches u w'
    deleted : (u : Tenant) (w : W) (o : Option Time) → Reaches u w → Reaches (delete_at o u) w
    finalized :
        (u : Tenant) (w : W) (fs : List String) → Reaches u w → Reaches (set_finalizers fs u) w

  no_condition : (u : Tenant) (t : String) → u.status.conditions ≡ [] → is_true u t ≡ true → ⊥
  unfolding is_true get find get_conditions tenant_setter
  no_condition u t e h = false≢true (
      subst (λ cs. elim (find cs t) [ some x ↦ x.status == condition_true | none ↦ false ] ≡ true) e
        h)

  IsConsistent-created :
      (u : Tenant) (w : W)
      → u.status.conditions ≡ []
      → u.status.phase ≡ ""
      → IsConsistent p c lookup lawful u w
  unfolding needs_provision has get find get_conditions set_conditions tenant_setter string_eq
  IsConsistent-created u w e phase = record {
    unique = subst IsUnique (sym e) tt;
    decided = λ h. absurd (
        false≢true
          (sym h ∙ subst (λ cs. needs_provision p c (set_conditions cs u) ≡ true) (sym e) refl));
    provisioned = λ h. absurd (no_condition u _ e h);
    ready = λ h. absurd (no_condition u _ e h);
    shown = λ h. absurd (string_differs "" "Ready" refl (sym phase ∙ h));
  }

  -- In every state that is reached from a new tenant by passes of the reconciler, by changes of
  -- the cluster by others that take no object away, by a request to delete the tenant and by
  -- changes of its finalizers: no condition type stands twice, a tenant that needs no
  -- provisioning is marked Provisioned, one that is marked Provisioned has all six objects, one
  -- that is marked Ready is marked Provisioned, and one whose phase is Ready is marked Ready.
  -- The code outside behaves as documented.
  pub Reaches-IsConsistent : (u : Tenant) (w : W) → Reaches u w → IsConsistent p c lookup lawful u w
  Reaches-IsConsistent _ _ (created u w e phase) = IsConsistent-created u w e phase
  Reaches-IsConsistent _ _ (passed u w r) =
      pass-Holds p c lookup lawful u (IsConsistent p c lookup lawful) (IsConsistent-IsPassed u) w
        (Reaches-IsConsistent u w r)
  Reaches-IsConsistent _ _ (changed u w w' keeps r) =
      IsConsistent-world p c lookup lawful u w w'
        (IsProvisioned-KeepsObjects p c lookup lawful u w w' keeps) (Reaches-IsConsistent u w r)
  Reaches-IsConsistent _ _ (deleted u w o r) =
      IsConsistent-meta u w _ refl (Reaches-IsConsistent u w r)
  Reaches-IsConsistent _ _ (finalized u w fs r) =
      IsConsistent-meta u w _ refl (Reaches-IsConsistent u w r)
