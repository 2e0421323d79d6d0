-- ===== src/Controllers/Deferred.antt =====
-- The errors of a whole run of `Reconcile` (tenant_controller.go) with its deferred patch.
use multi_tenants.Base.{
  Bool, true, false, ◌≡◌, refl, sym, ◌∙◌, ap, ◌⊎◌, inl, inr, none, some, Result, Error, ok, err,
  attempt, if◌then◌else◌,
}
use multi_tenants.Api.{Kind, ObjectKey, Tenant}
use multi_tenants.ControllerUtil.Patch.{Operation, patch_if_exists}
use multi_tenants.Controllers.Setup.{Platform, TenantController}
use multi_tenants.Controllers.Phase.{reconcile_phase}
use multi_tenants.Controllers.Normal.{ReconcileResult, no_requeue, Handled}
use multi_tenants.Controllers.Reconcile.{
  handle_tenant, copy_fields, join_error, finish_reconcile, on_tenant, reconcile,
}

missing_result :
    (b : Bool) (e : Error) (r : ReconcileResult)
    → (if b then ok no_requeue else err e) ≡ ok r
    → (b ≡ true) × (r ≡ no_requeue)
missing_result true e r h = (refl, cc)
missing_result false e r h = cc

-- The tenant `t` with what the deferred patch copies from `u`.
abbrev pub copied : Tenant → Tenant → Tenant
copied u t = record t {
  object_meta = record (t.object_meta) {
    finalizers = u.object_meta.finalizers;
    owner_references = u.object_meta.owner_references;
  };
  status = record (t.status) { phase = u.status.phase; conditions = u.status.conditions };
}

module _ {W : Type 0} (p : Platform W) (c : TenantController) where
  -- What the deferred function does to the API server after a handler.
  abbrev pub deferred_patch : Handled W → Operation × W
  deferred_patch h =
      let t = reconcile_phase p.machinery h.tenant in
      patch_if_exists p.client p.machinery p.converter Kind.tenant t (some (copy_fields p c t))
        h.world

  join_error-world : (r : Result ReconcileResult) (x : Operation × W) → (join_error p c r x).1 ≡ x.1
  join_error-world r ((_, none), w) = refl
  join_error-world r ((_, some e), w) = refl

  -- An error that is joined to the result leaves the world alone.
  pub finish_reconcile-world : (h : Handled W) → (finish_reconcile p c h).1 ≡ (deferred_patch h).1
  unfolding finish_reconcile
  finish_reconcile-world h = join_error-world h.result (deferred_patch h)

  join_error-ok :
      (result : Result ReconcileResult) (x : Operation × W) (r : ReconcileResult)
      → (join_error p c result x).0 ≡ ok r
      → (result ≡ ok r) × (x.0.1 ≡ none)
  join_error-ok result ((_, none), w) r h = (h, refl)
  join_error-ok result ((_, some e), w) r h = cc

  pub finish_reconcile-ok :
      (h : Handled W) (r : ReconcileResult)
      → (finish_reconcile p c h).0 ≡ ok r
      → (h.result ≡ ok r) × ((deferred_patch h).0.1 ≡ none)
  unfolding finish_reconcile
  finish_reconcile-ok h r e = join_error-ok h.result (deferred_patch h) r e

  -- The tenant was read, its handler gave this result, and the deferred patch no error.
  pub record IsFinished (key : ObjectKey) (w : W) (r : ReconcileResult) : Type 0 where
    pub tenant : Tenant
    pub found : (p.client.get Kind.tenant key w).0 ≡ ok tenant
    pub handled : (handle_tenant p c tenant (p.client.get Kind.tenant key w).1).result ≡ ok r
    pub patched :
        (deferred_patch (handle_tenant p c tenant (p.client.get Kind.tenant key w).1)).0.1 ≡ none

  -- There is no such tenant, and nothing was done.
  pub record IsGone (key : ObjectKey) (w : W) (r : ReconcileResult) : Type 0 where
    pub error : Error
    pub missing : (p.client.get Kind.tenant key w).0 ≡ err error
    pub not_found : p.machinery.is_not_found error ≡ true
    pub result : r ≡ no_requeue
    pub world : (reconcile p c key w).1 ≡ (p.client.get Kind.tenant key w).1

  -- When a whole run of Reconcile returns no error, either there is no such tenant and nothing
  -- was done beside the read, or the tenant was read, its handler returned the same result
  -- without an error, and the deferred patch gave no error: no error is lost.
  pub reconcile-ok :
      (key : ObjectKey) (w : W) (r : ReconcileResult)
      → (reconcile p c key w).0 ≡ ok r
      → IsGone key w r ⊎ IsFinished key w r
  unfolding reconcile attempt
  reconcile-ok key w r h = by_read (p.client.get Kind.tenant key w).0 refl
    where
      w1 : W
      w1 = (p.client.get Kind.tenant key w).1

      by_read :
          (o : Result Tenant)
          → (p.client.get Kind.tenant key w).0 ≡ o
          → IsGone key w r ⊎ IsFinished key w r
      by_read (ok t) found =
          let (handled, patched) =
            finish_reconcile-ok (handle_tenant p c t w1) r
              (ap (λ x. (on_tenant p c x w1).0) (sym found) ∙ h) in
          inr (record { tenant = t; found = found; handled = handled; patched = patched })
      by_read (err e) missing =
          let (gone, same) =
            missing_result (p.machinery.is_not_found e) e r
              (ap (λ x. (on_tenant p c x w1).0) (sym missing) ∙ h) in
          inl (record {
            error = e;
            missing = missing;
            not_found = gone;
            result = same;
            world = ap (λ x. (on_tenant p c x w1).1) missing;
          })
