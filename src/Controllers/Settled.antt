-- ===== src/Controllers/Settled.antt =====
-- The state in which a tenant comes to rest under `Reconcile` (tenant_controller.go).
use multi_tenants.Base.{
  true, false, ◌≡◌, refl, sym, ◌∙◌, ap, inl, inr, Bool-cases, some, Result, ok, err, arith,
  string_eq, nat_eq,
}
use multi_tenants.Api.{
  Time, Tenant, Condition, get_conditions, set_conditions, tenant_condition_ready, condition_true,
}
use multi_tenants.Conditions.{
  get, is_true, mark_true, true_condition, has_same_state, new_condition,
}
use multi_tenants.Conditions.TenantConditions.{tenant_setter, tenant_setter-IsLawfulSetter}
use multi_tenants.Conditions.Laws.{IsOrdered, set_again}
use multi_tenants.Client.Server.{Lookup}
use multi_tenants.Controllers.Setup.{Platform, TenantController}
use multi_tenants.Controllers.PhaseLaws.{is_deleting, reconcile_phase-priority}
use multi_tenants.Controllers.Phase.{reconcile_phase}
use multi_tenants.Controllers.Normal.{
  ReconcileResult, needs_provision, check_ready, end_normal, check_and_end, after_namespace,
  ensure_namespace, reconcile_normal,
}
use multi_tenants.Controllers.Reconcile.{tenant_finalizer, handle_tenant}
use multi_tenants.Controllers.Footprint.{IsLawfulPlatform}
use multi_tenants.Controllers.Marks.{marked-set_conditions}
use multi_tenants.Controllers.Handling.{mark_ready}
use multi_tenants.Controllers.Lifecycle.{with_phase, holds, pass, handle_tenant-normal}
use multi_tenants.Controllers.Liveness.{ready_phase}

module _ {W : Type 0} (p : Platform W) (c : TenantController) (lookup : Lookup W)
    (lawful : IsLawfulPlatform p lookup) where
  abbrev pub ready_true : Condition
  ready_true = new_condition tenant_condition_ready condition_true "Success" "Ready"

  -- The tenant is taken hold of and not deleted, it needs no provisioning, and it is marked Ready
  -- the way the handler marks it.
  pub record IsSettled (t : Tenant) : Type 0 where
    pub held : holds p c lawful.machinery t tenant_finalizer ≡ true
    pub live : is_deleting t.object_meta.deletion_timestamp ≡ false
    pub ordered : IsOrdered (get_conditions t)
    pub enough : needs_provision p c t ≡ false
    pub ready :
        (x : Condition) × ((get t tenant_condition_ready ≡ some x)
          × (has_same_state x ready_true ≡ true))
    pub shown : t.status.phase ≡ "Ready"

  module _ (t : Tenant) (h : IsSettled t) where
    -- Its mark Ready stays as it is, with the time of its transition.
    mark_ready-settled : (now : Time) → mark_ready p c lookup lawful now t ≡ t
    unfolding mark_true true_condition tenant_setter set_conditions get_conditions
    mark_ready-settled now =
        marked-set_conditions p lookup lawful true now t tenant_condition_ready "Success" "Ready"
        ∙ ap (λ cs. set_conditions cs t)
            (set_again tenant_setter-IsLawfulSetter p.machinery lawful.machinery p.sort_slice
              lawful.sorter now t ready_true h.ready.0 refl h.ordered h.ready.1.0 h.ready.1.1)

    end_normal-settled : (r : Result ReconcileResult) (w : W) → (end_normal p c t (r, w)).tenant ≡ t
    unfolding end_normal
    end_normal-settled (err e) w = refl
    end_normal-settled (ok r) w = elim (Bool-cases r.requeue) [
      | inl b ↦ rw b refl
      | inr b ↦ rw b (mark_ready-settled _)
    ]

    after_namespace-settled :
        (r : Result (Unit {0})) (w : W) → (after_namespace p c t (r, w)).tenant ≡ t
    unfolding after_namespace check_and_end
    after_namespace-settled (err e) w = refl
    after_namespace-settled (ok a) w =
        rw h.enough (end_normal-settled (check_ready p c t w).0 (check_ready p c t w).1)

    pub handle_tenant-settled : (w : W) → (handle_tenant p c t w).tenant ≡ t
    unfolding reconcile_normal
    handle_tenant-settled w =
        ap (λ x. x.tenant) (handle_tenant-normal p c lawful.machinery t w h.held h.live)
        ∙ after_namespace-settled (ensure_namespace p c t w).0 (ensure_namespace p c t w).1

    is_true-ready : is_true t tenant_condition_ready ≡ true
    unfolding is_true has_same_state
    is_true-ready = rw (is_true, h.ready.1.0) (ground (arith, h.ready.1.1))

    pub phase-settled : reconcile_phase p.machinery t ≡ t
    phase-settled =
        reconcile_phase-priority p.machinery lawful.machinery t
        ∙ ap (λ x. with_phase x t)
            (ready_phase p c lookup lawful t h.live is_true-ready ∙ sym h.shown)

    -- Whatever its calls return, a pass leaves it as it is.
    pub pass-settled : (w : W) → pass p c lawful.machinery t w ≡ t
    pass-settled w =
        ap (λ u. reconcile_phase p.machinery u) (handle_tenant-settled w) ∙ phase-settled
