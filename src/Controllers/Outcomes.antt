-- ===== src/Controllers/Outcomes.antt =====
-- How a run of `reconcileNormal` (tenant_controller.go) ends, by what its steps return.
use multi_tenants.Base.{
  true, false, ◌≡◌, refl, ◌∙◌, ap, inl, inr, Bool-cases, Result, Error, ok, err, string_eq,
}
use multi_tenants.Api.{
  Time, Tenant, tenant_condition_provisioned, get_conditions, cluster_namespace_in_host,
}
use multi_tenants.Conditions.TenantConditions.{tenant_setter}
use multi_tenants.Conditions.Reading.{IsUnique}
use multi_tenants.Client.Server.{Lookup}
use multi_tenants.Controllers.Setup.{Platform, TenantController}
use multi_tenants.Controllers.Normal.{
  no_requeue, ensure_namespace, needs_provision, provision, check_ready, end_normal, check_and_end,
  end_provision, after_namespace, reconcile_normal,
}
use multi_tenants.Controllers.Footprint.{IsLawfulPlatform}
use multi_tenants.Controllers.Marks.{marked-object_meta, marked-IsOrdered}
use multi_tenants.Controllers.Handling.{
  mark_failed, mark_provisioned, mark_ready, needs_provision-mark,
}

err_inj : (e e' : Error) → ◌≡◌ {A = Result (Unit {0})} (err e) (err e') → e ≡ e'
err_inj e e' h = cc

module _ {W : Type 0} (p : Platform W) (c : TenantController) (lookup : Lookup W)
    (lawful : IsLawfulPlatform p lookup) where
  -- The steps that a run over `t` takes from the world `w` all succeed.
  pub record IsHealthy (t : Tenant) (w : W) : Type 0 where
    pub namespace : (ensure_namespace p c t w).0 ≡ ok tt
    pub provisions :
        needs_provision p c t ≡ true → (provision p c t (ensure_namespace p c t w).1).0 ≡ ok tt
    pub ready_after :
        needs_provision p c t ≡ true
        → (check_ready p c t (p.crypto.now (provision p c t (ensure_namespace p c t w).1).1).1).0
          ≡ ok no_requeue
    pub ready_now :
        needs_provision p c t ≡ false
        → (check_ready p c t (ensure_namespace p c t w).1).0 ≡ ok no_requeue

  pub after_namespace-ok :
      (t : Tenant) (w : W)
      → (ensure_namespace p c t w).0 ≡ ok tt
      → reconcile_normal p c t w ≡ after_namespace p c t (ok tt, (ensure_namespace p c t w).1)
  unfolding reconcile_normal
  after_namespace-ok t w h = ap (λ r. after_namespace p c t (r, (ensure_namespace p c t w).1)) h

  pub after_namespace-needs :
      (t : Tenant) (w : W)
      → needs_provision p c t ≡ true
      → after_namespace p c t (ok tt, w) ≡ end_provision p c t (provision p c t w)
  unfolding after_namespace
  after_namespace-needs t w h = rw h refl

  after_namespace-checks :
      (t : Tenant) (w : W)
      → needs_provision p c t ≡ false
      → after_namespace p c t (ok tt, w) ≡ check_and_end p c t w
  unfolding after_namespace
  after_namespace-checks t w h = rw h refl

  pub end_provision-ok :
      (t : Tenant) (r : Result (Unit {0}) × W)
      → r.0 ≡ ok tt
      → end_provision p c t r
        ≡ check_and_end p c
            (mark_provisioned p c lookup lawful (p.crypto.now r.1).0 t)
            (p.crypto.now r.1).1
  unfolding end_provision
  end_provision-ok t (ok a, w) h = refl
  end_provision-ok t (err e, w) h = cc

  pub end_provision-err :
      (t : Tenant) (r : Result (Unit {0}) × W) (e : Error)
      → r.0 ≡ err e
      → end_provision p c t r ≡ record {
        tenant = mark_failed p c lookup lawful (p.crypto.now r.1).0 t;
        result = err e;
        world = (p.crypto.now r.1).1;
      }
  unfolding end_provision
  end_provision-err t (ok a, w) e h = cc
  end_provision-err t (err e', w) e h =
      ap
        (λ x. record {
          tenant = mark_failed p c lookup lawful (p.crypto.now w).0 t;
          result = err x;
          world = (p.crypto.now w).1;
        })
        (err_inj e' e h)

  pub check_ready-meta :
      (t u : Tenant) (w : W)
      → u.object_meta ≡ t.object_meta
      → check_ready p c u w ≡ check_ready p c t w
  unfolding check_ready cluster_namespace_in_host
  check_ready-meta t u w same = ap (λ o. check_ready p c (record t { object_meta = o }) w) same

  check_and_end-ready :
      (u : Tenant) (w : W)
      → (check_ready p c u w).0 ≡ ok no_requeue
      → (time : Time) × (check_and_end p c u w ≡ record {
        tenant = mark_ready p c lookup lawful time u;
        result = ok no_requeue;
        world = (p.crypto.now (check_ready p c u w).1).1;
      })
  unfolding check_and_end end_normal
  check_and_end-ready u w h = (_, ap (λ r. end_normal p c u (r, (check_ready p c u w).1)) h)

  -- The handler marks the tenant Ready, on top of what it was or of the mark Provisioned.
  pub healthy_end :
      (t : Tenant) (w : W)
      → IsHealthy t w
      → (u : Tenant) × (time : Time) × (x : W) × (reconcile_normal p c t w ≡ record {
        tenant = mark_ready p c lookup lawful time u;
        result = ok no_requeue;
        world = x;
      })
        × (u.object_meta ≡ t.object_meta)
        × (IsUnique (get_conditions t)
            → IsUnique (get_conditions u) × (needs_provision p c u ≡ false))
  healthy_end t w h = elim (Bool-cases (needs_provision p c t)) [
    | inr e ↦
        let (time, q) = check_and_end-ready t _ (h.ready_now e) in
        (
          t,
          time,
          _,
          after_namespace-ok t w h.namespace ∙ after_namespace-checks t _ e ∙ q,
          refl,
          λ unique. (unique, e),
        )
    | inl e ↦
        let same = marked-object_meta p lookup lawful true _ t tenant_condition_provisioned _ _ in
        let (time, q) =
          check_and_end-ready (provisioned e) _
            (ap (λ x. x.0) (check_ready-meta t (provisioned e) _ same) ∙ h.ready_after e) in
        (
          provisioned e,
          time,
          _,
          after_namespace-ok t w h.namespace
              ∙ after_namespace-needs t _ e
              ∙ end_provision-ok t _ (h.provisions e)
              ∙ q,
          same,
          λ unique. (
            (marked-IsOrdered p lookup lawful true _ t _ _ _ unique).1,
            needs_provision-mark p c lookup lawful _ t unique,
          ),
        )
  ]
    where
      provisioned : needs_provision p c t ≡ true → Tenant
      provisioned e =
          mark_provisioned p c lookup lawful
            (p.crypto.now (provision p c t (ensure_namespace p c t w).1).1).0 t
