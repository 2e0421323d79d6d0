-- ===== src/Controllers/Done.antt =====
-- What holds when `reconcileNormal` (tenant_controller.go) returns without an error and without
-- asking to be run again.
use mathlib.Core.Bool.{false≢true}
use multi_tenants.Base.{
  String, ◌<>◌, Bool, true, false, ◌≡◌, refl, sym, ◌∙◌, inl, inr, subst, Result, Error, ok, err,
  arith, ◌==◌, string_eq, if◌then◌else◌,
}
use multi_tenants.Api.{
  Time, Kind, Tenant, ObjectKey, tenant_condition_ready, get_conditions, set_conditions,
  cluster_namespace_in_host,
}
use multi_tenants.Conditions.{is_true, mark_true, set, true_condition}
use multi_tenants.Conditions.Reading.{IsUnique}
use multi_tenants.Conditions.Laws.{IsOrdered}
use multi_tenants.Conditions.Marking
use multi_tenants.Conditions.Marking.{is_true-marked}
use multi_tenants.Conditions.TenantConditions.{tenant_setter, tenant_setter-IsLawfulSetter}
use multi_tenants.Client.Server.{Lookup}
use multi_tenants.Controllers.Setup.{Platform, TenantController}
use multi_tenants.Controllers.Footprint.{IsLawfulPlatform}
use multi_tenants.Controllers.Readiness.{
  AllReady, key_in_host, check_ready_cases, check_ready-reads,
}
use multi_tenants.Controllers.Normal.{
  ReconcileResult, requeue_soon, no_requeue, Handled, check_ready, end_normal, check_and_end,
  end_provision, after_namespace, ensure_namespace, reconcile_normal, provision, needs_provision,
}

-- The tenant is marked Ready, its conditions are in order, and both of its deployments are up.
pub record IsDone {W : Type 0} (lookup : Lookup W) (t : Tenant) (h : Handled W) : Type 0 where
  pub api_server : AllReady lookup (key_in_host t "kube-apiserver") h.world
  pub controller_manager : AllReady lookup (key_in_host t "kube-controller-manager") h.world
  pub is_ready : is_true h.tenant tenant_condition_ready ≡ true
  pub ordered : IsOrdered (get_conditions h.tenant)

module _ {W : Type 0} (p : Platform W) (c : TenantController) (lookup : Lookup W)
    (lawful : IsLawfulPlatform p lookup) where
  abbrev now_true : Time → Tenant → String → String → String → Tenant
  now_true = mark_true p.machinery p.sort_slice

  marked-IsOrdered :
      (now : Time) (u : Tenant) (type reason message : String)
      → IsUnique (get_conditions u)
      → IsOrdered (get_conditions (now_true now u type reason message))
  unfolding tenant_setter
  marked-IsOrdered now u type reason message unique =
      Marking.marked-IsOrdered tenant_setter-IsLawfulSetter p.machinery lawful.machinery
        p.sort_slice lawful.sorter now u refl unique type reason message true

  own_type : {A : Type 0} (s : String) (a b : A) → (if s == s then a else b) ≡ a
  own_type s a b = ground arith

  marked-is_true :
      (now : Time) (u : Tenant) (type reason message : String)
      → IsUnique (get_conditions u)
      → is_true (now_true now u type reason message) type ≡ true
  unfolding tenant_setter
  marked-is_true now u type reason message unique =
      is_true-marked tenant_setter-IsLawfulSetter p.machinery lawful.machinery p.sort_slice
        lawful.sorter now u refl unique type reason message true type
      ∙ own_type type true _

  same_meta :
      (now : Time) (u : Tenant) (type reason message : String)
      → (now_true now u type reason message).object_meta ≡ u.object_meta
  unfolding mark_true true_condition tenant_setter set set_conditions
  same_meta now u type reason message = refl

  AllReady-same :
      (key : ObjectKey) (w w' : W)
      → lookup Kind.deployment key w' ≡ lookup Kind.deployment key w
      → AllReady lookup key w
      → AllReady lookup key w'
  AllReady-same key w w' same (d, held, ready) = (d, same ∙ held, ready)

  end_ready :
      (u : Tenant) (w : W)
      → IsUnique (get_conditions u)
      → AllReady lookup (key_in_host u "kube-apiserver") w
      → AllReady lookup (key_in_host u "kube-controller-manager") w
      → IsDone lookup u (end_normal p c u (ok no_requeue, w))
  unfolding end_normal
  end_ready u w unique ready ready' = record {
    api_server = AllReady-same _ w _ (lawful.now-reads Kind.deployment _ w) ready;
    controller_manager = AllReady-same _ w _ (lawful.now-reads Kind.deployment _ w) ready';
    is_ready = marked-is_true _ u tenant_condition_ready _ _ unique;
    ordered = marked-IsOrdered _ u tenant_condition_ready _ _ unique;
  }

  end_soon :
      (u : Tenant) (w : W) (r : ReconcileResult)
      → (end_normal p c u (ok requeue_soon, w)).result ≡ ok r
      → r.requeue ≡ true
  unfolding end_normal
  end_soon u w r h = cc

  end_failed :
      (u : Tenant) (w : W) (r : ReconcileResult) (e : Error)
      → (end_normal p c u (err e, w)).result ≡ ok r
      → ⊥
  unfolding end_normal
  end_failed u w r e h = cc

  check_and_end-IsDone :
      (u : Tenant) (w : W) (r : ReconcileResult)
      → IsUnique (get_conditions u)
      → (check_and_end p c u w).result ≡ ok r
      → r.requeue ≡ false
      → IsDone lookup u (check_and_end p c u w)
  unfolding check_and_end
  check_and_end-IsDone u w r unique = by_result (check_ready p c u w).0 refl
    where
      checked : W
      checked = (check_ready p c u w).1

      reads :
          (slot : ObjectKey) → lookup Kind.deployment slot checked ≡ lookup Kind.deployment slot w
      reads = check_ready-reads p c lookup lawful.client u w Kind.deployment

      by_result :
          (o : Result ReconcileResult)
          → (check_ready p c u w).0 ≡ o
          → (end_normal p c u (o, checked)).result ≡ ok r
          → r.requeue ≡ false
          → IsDone lookup u (end_normal p c u (o, checked))
      by_result (err e) q h still = absurd (end_failed u checked r e h)
      by_result (ok a) q h still = elim (check_ready_cases p c lookup lawful.client u w a q) [
        | inl e ↦ absurd (
            false≢true (
              sym still
              ∙ end_soon u checked r
                  (subst (λ x. (end_normal p c u (ok x, checked)).result ≡ ok r) e h)))
        | inr (e, ready, ready') ↦
            subst (λ x. IsDone lookup u (end_normal p c u (ok x, checked))) (sym e)
              (end_ready u checked unique (AllReady-same _ w checked (reads _) ready)
                (AllReady-same _ w checked (reads _) ready'))
      ]

  -- A tenant of the same metadata has the same namespace in the host cluster.
  IsDone-meta :
      (u t : Tenant) (h : Handled W)
      → u.object_meta ≡ t.object_meta
      → IsDone lookup u h
      → IsDone lookup t h
  unfolding cluster_namespace_in_host
  IsDone-meta u t h same done = record {
    api_server =
        subst
          (λ o.
            AllReady lookup (record { namespace = "tenant-" <> o.name; name = "kube-apiserver" })
              h.world)
          same done.api_server;
    controller_manager =
        subst
          (λ o.
            AllReady lookup
              (record { namespace = "tenant-" <> o.name; name = "kube-controller-manager" })
              h.world)
          same done.controller_manager;
    is_ready = done.is_ready;
    ordered = done.ordered;
  }

  end_provision-IsDone :
      (t : Tenant) (o : Result (Unit {0})) (w : W) (r : ReconcileResult)
      → IsUnique (get_conditions t)
      → (end_provision p c t (o, w)).result ≡ ok r
      → r.requeue ≡ false
      → IsDone lookup t (end_provision p c t (o, w))
  unfolding end_provision
  end_provision-IsDone t (err e) w r unique h still = cc
  end_provision-IsDone t (ok _) w r unique h still =
      IsDone-meta _ t _ (same_meta _ t _ _ _)
        (check_and_end-IsDone _ _ r (marked-IsOrdered _ t _ _ _ unique).1 h still)

  IsDone-either_way :
      (t : Tenant) (r : ReconcileResult) (b : Bool) (x y : Handled W)
      → (x.result ≡ ok r → IsDone lookup t x)
      → (y.result ≡ ok r → IsDone lookup t y)
      → (if b then x else y).result ≡ ok r
      → IsDone lookup t (if b then x else y)
  IsDone-either_way t r true x y f g h = f h
  IsDone-either_way t r false x y f g h = g h

  after_namespace-IsDone :
      (t : Tenant) (o : Result (Unit {0})) (w : W) (r : ReconcileResult)
      → IsUnique (get_conditions t)
      → r.requeue ≡ false
      → (after_namespace p c t (o, w)).result ≡ ok r
      → IsDone lookup t (after_namespace p c t (o, w))
  unfolding after_namespace
  after_namespace-IsDone t (err e) w r unique still h = cc
  after_namespace-IsDone t (ok _) w r unique still h =
      IsDone-either_way t r (needs_provision p c t) _ _
        (λ q. end_provision-IsDone t (provision p c t w).0 (provision p c t w).1 r unique q still)
        (λ q. check_and_end-IsDone t w r unique q still) h

  -- When reconcileNormal returns neither an error nor a request to run again, the tenant is
  -- marked Ready, its conditions are in order with no type twice, and on the server all replicas
  -- of both deployments are ready. The conditions before have no type twice. The code outside
  -- behaves as documented.
  pub reconcile_normal-IsDone :
      (t : Tenant) (w : W) (r : ReconcileResult)
      → IsUnique (get_conditions t)
      → (reconcile_normal p c t w).result ≡ ok r
      → r.requeue ≡ false
      → IsDone lookup t (reconcile_normal p c t w)
  unfolding reconcile_normal
  reconcile_normal-IsDone t w r unique h still =
      after_namespace-IsDone t (ensure_namespace p c t w).0 _ r unique still h
