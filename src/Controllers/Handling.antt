-- ===== src/Controllers/Handling.antt =====
-- A rule for what holds of the tenant and of the world after `reconcileNormal`
-- (tenant_controller.go), wherever it ends.
use multi_tenants.Base.{string_eq, true, false, ◌≡◌, refl, inl, inr, Result, ok, err, Bool-cases}
use multi_tenants.Api.{
  Time, Tenant, tenant_condition_provisioned, tenant_condition_ready, get_conditions,
}
use multi_tenants.Conditions.{mark_true, mark_false}
use multi_tenants.Conditions.TenantConditions.{tenant_setter}
use multi_tenants.Conditions.Reading.{IsUnique}
use multi_tenants.Client.Server.{Lookup}
use multi_tenants.Controllers.Setup.{Platform, TenantController}
use multi_tenants.Controllers.Ownership.{
  OwnedKeeps, provision-Keeps, ensure_namespace-Keeps, check_ready-Keeps,
}
use multi_tenants.Controllers.Footprint.{IsLawfulPlatform}
use multi_tenants.Controllers.Completeness.{IsProvisioned, provision-Ensures}
use multi_tenants.Controllers.Persistence.{IsProvisioned-OwnedKeeps}
use multi_tenants.Controllers.Marks.{has-marked, is_false-marked}
use multi_tenants.Controllers.Normal.{
  ReconcileResult, Handled, needs_provision, provision, check_ready, end_normal, check_and_end,
  end_provision, after_namespace, ensure_namespace, reconcile_normal,
}

module _ {W : Type 0} (p : Platform W) (c : TenantController) (lookup : Lookup W)
    (lawful : IsLawfulPlatform p lookup) where
  abbrev pub mark_failed : Time → Tenant → Tenant
  mark_failed now u =
      mark_false p.machinery p.sort_slice now u tenant_condition_provisioned "Failed"
        "Failed to handle phase"

  abbrev pub mark_provisioned : Time → Tenant → Tenant
  mark_provisioned now u =
      mark_true p.machinery p.sort_slice now u tenant_condition_provisioned "Success"
        "Success to provision"

  abbrev pub mark_ready : Time → Tenant → Tenant
  mark_ready now u =
      mark_true p.machinery p.sort_slice now u tenant_condition_ready "Success" "Ready"

  -- A provisioned tenant is not provisioned again.
  pub needs_provision-mark :
      (now : Time) (u : Tenant)
      → IsUnique (get_conditions u)
      → needs_provision p c (mark_provisioned now u) ≡ false
  unfolding needs_provision tenant_setter string_eq
  needs_provision-mark now u unique =
      rw
        (
          needs_provision,
          has-marked p lookup lawful true now u tenant_condition_provisioned "Success"
              "Success to provision" unique tenant_condition_provisioned,
          is_false-marked p lookup lawful true now u tenant_condition_provisioned "Success"
              "Success to provision" unique tenant_condition_provisioned,
        )
        refl

  -- What the handler of `t` keeps of a tenant and a world: its calls, and its three marks.
  pub record IsHandled (t : Tenant) (P : Tenant → W → Type 0) : Type 0 where
    pub calls : (u : Tenant) → OwnedKeeps p t (P u)
    pub failed :
        (now : Time) (w : W) → needs_provision p c t ≡ true → P t w → P (mark_failed now t) w
    pub provisioned :
        (now : Time) (w : W)
        → needs_provision p c t ≡ true
        → IsProvisioned p c lookup lawful t w
        → P t w
        → P (mark_provisioned now t) w
    pub ready :
        (now : Time) (u : Tenant) (w : W)
        → needs_provision p c u ≡ false
        → P u w
        → P (mark_ready now u) w
    pub unique : (w : W) → P t w → IsUnique (get_conditions t)

  module _ (t : Tenant) (P : Tenant → W → Type 0) (h : IsHandled t P) where
    abbrev Holds : Handled W → Type 0
    Holds x = P x.tenant x.world

    end_normal-Holds :
        (u : Tenant) (r : Result ReconcileResult) (w : W)
        → needs_provision p c u ≡ false
        → P u w
        → Holds (end_normal p c u (r, w))
    unfolding end_normal
    end_normal-Holds u (err e) w still x = x
    end_normal-Holds u (ok r) w still x = elim (Bool-cases r.requeue) [
      | inl b ↦ rw b x
      | inr b ↦ rw b (h.ready _ u _ still ((h.calls u).crypto.now w x))
    ]

    check_and_end-Holds :
        (u : Tenant) (w : W) → needs_provision p c u ≡ false → P u w → Holds (check_and_end p c u w)
    unfolding check_and_end
    check_and_end-Holds u w still x =
        end_normal-Holds u (check_ready p c u w).0 (check_ready p c u w).1 still
          ((check_ready-Keeps p t (P u) (h.calls u) c u).run w x)

    end_provision-Holds :
        (r : Result (Unit {0})) (w : W)
        → needs_provision p c t ≡ true
        → (r ≡ ok tt → IsProvisioned p c lookup lawful t w)
        → P t w
        → Holds (end_provision p c t (r, w))
    unfolding end_provision
    end_provision-Holds (err e) w needs done x = h.failed _ _ needs ((h.calls t).crypto.now w x)
    end_provision-Holds (ok a) w needs done x =
        check_and_end-Holds _ (p.crypto.now w).1 (needs_provision-mark _ t (h.unique w x)) (
          h.provisioned _ _ needs
            ((IsProvisioned-OwnedKeeps p c lookup lawful t t).crypto.now w (done refl))
            ((h.calls t).crypto.now w x))

    after_namespace-Holds :
        (r : Result (Unit {0})) (w : W) → P t w → Holds (after_namespace p c t (r, w))
    unfolding after_namespace
    after_namespace-Holds (err e) w x = x
    after_namespace-Holds (ok a) w x = elim (Bool-cases (needs_provision p c t)) [
      | inl b ↦ rw b (
          end_provision-Holds (provision p c t w).0 (provision p c t w).1 b
            ((provision-Ensures p c lookup lawful t).after w tt)
            ((provision-Keeps p t (P t) (h.calls t) c).run w x))
      | inr b ↦ rw b (check_and_end-Holds t w b x)
    ]

    -- What the calls and the marks keep, the handler keeps.
    pub reconcile_normal-Holds : (w : W) → P t w → Holds (reconcile_normal p c t w)
    unfolding reconcile_normal
    reconcile_normal-Holds w x =
        after_namespace-Holds (ensure_namespace p c t w).0 (ensure_namespace p c t w).1
          ((ensure_namespace-Keeps p t (P t) (h.calls t) c).run w x)
