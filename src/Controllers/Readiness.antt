-- ===== src/Controllers/Readiness.antt =====
-- When `checkDeploy` in `reconcileNormal` (tenant_controller.go) lets a tenant pass.
use multi_tenants.Base.{
  String, Bool, true, false, ◌≡◌, refl, sym, ◌∙◌, Keeps, keeps, subst, Call, ◌⊎◌, inl, inr, some,
  Result, ok, arith, pure, >>=-ok, ◌!=◌, nat_eq, if◌then◌else◌,
}
use multi_tenants.Api.{Kind, Deployment, ObjectKey, Tenant, cluster_namespace_in_host}
use multi_tenants.Client.Server.{Lookup, IsLawfulClient}
use multi_tenants.Conditions.TenantConditions.{tenant_setter}
use multi_tenants.Controllers.Setup.{Platform, TenantController}
use multi_tenants.Controllers.Normal.{
  ReconcileResult, no_requeue, requeue_soon, check_deploy, check_ready,
}

-- The server holds the deployment, and as many of its replicas are ready as it has.
abbrev pub AllReady : {W : Type 0} → Lookup W → ObjectKey → W → Type 0
AllReady lookup key w =
    (d : Deployment) × (lookup Kind.deployment key w ≡ some d)
    × (d.status.replicas ≡ d.status.ready_replicas)

abbrev pub key_in_host : Tenant → String → ObjectKey
key_in_host t name = record { namespace = cluster_namespace_in_host t; name = name }

module _ {W : Type 0} (p : Platform W) (c : TenantController) (lookup : Lookup W)
    (lawful : IsLawfulClient p.client p.machinery lookup) where
  open lawful use {get-reads, get-found}

  decide_replicas :
      (key : ObjectKey) (d : Deployment) (w w' : W) (r : ReconcileResult) (b : Bool)
      → (d.status.replicas != d.status.ready_replicas) ≡ b
      → lookup Kind.deployment key w ≡ some d
      → ((if b then pure {W = W} requeue_soon else pure no_requeue) w').0 ≡ ok r
      → (r ≡ requeue_soon) ⊎ ((r ≡ no_requeue) × AllReady lookup key w)
  unfolding pure
  decide_replicas key d w w' r true e held q = inl cc
  decide_replicas key d w w' r false e held q = inr (cc, (d, held, ground arith))

  check_deploy_cases :
      (ns name : String) (w : W) (r : ReconcileResult)
      → (check_deploy p c ns name w).0 ≡ ok r
      → (r ≡ requeue_soon)
        ⊎ ((r ≡ no_requeue) × AllReady lookup (record { namespace = ns; name = name }) w)
  unfolding check_deploy
  check_deploy_cases ns name w r h =
      let (d, (found, rest)) = >>=-ok _ _ w r h in
      decide_replicas _ d w _ r _ refl (get-found Kind.deployment _ w d found) rest

  check_deploy-reads :
      (ns name : String) (w : W) (k : Kind) (slot : ObjectKey)
      → lookup k slot (check_deploy p c ns name w).1 ≡ lookup k slot w
  unfolding check_deploy
  check_deploy-reads ns name w k slot = keeps_slot.run w refl
    where
      get-Keeps :
          (j : Kind) (key : ObjectKey)
          → Keeps (λ x. lookup k slot x ≡ lookup k slot w) (p.client.get j key)
      get-Keeps j key = record { run = λ x e. get-reads j k key slot x ∙ e }

      keeps_slot : Keeps (λ x. lookup k slot x ≡ lookup k slot w) (check_deploy p c ns name)
      keeps_slot = search (keeps, get-Keeps) depth 8

  AllReady-reads :
      (key : ObjectKey) (w w' : W)
      → lookup Kind.deployment key w' ≡ lookup Kind.deployment key w
      → AllReady lookup key w'
      → AllReady lookup key w
  AllReady-reads key w w' same (d, held, ready) = (d, sym same ∙ held, ready)

  -- The early return hands on the first result.
  stop_early :
      (a r : ReconcileResult) (w : W) (next : Call W ReconcileResult)
      → a ≡ requeue_soon
      → ((if a.requeue then pure a else next) w).0 ≡ ok r
      → r ≡ requeue_soon
  unfolding pure
  stop_early a r w next e h =
      let h' = subst (λ x. ((if x.requeue then pure x else next) w).0 ≡ ok r) e h in cc

  go_on :
      (a : ReconcileResult) (r : Result ReconcileResult) (w : W) (next : Call W ReconcileResult)
      → a ≡ no_requeue
      → ((if a.requeue then pure a else next) w).0 ≡ r
      → (next w).0 ≡ r
  unfolding pure
  go_on a r w next e h = subst (λ x. ((if x.requeue then pure x else next) w).0 ≡ r) e h

  -- When the checks succeed they either say to run again in ten seconds, or to go on, and then
  -- the server holds both deployments with all their replicas ready. The code outside behaves as
  -- documented.
  pub check_ready_cases :
      (t : Tenant) (w : W) (r : ReconcileResult)
      → (check_ready p c t w).0 ≡ ok r
      → (r ≡ requeue_soon)
        ⊎ ((r ≡ no_requeue)
            × AllReady lookup (key_in_host t "kube-apiserver") w
            × AllReady lookup (key_in_host t "kube-controller-manager") w)
  unfolding check_ready
  check_ready_cases t w r h =
      let (a, (first, rest)) = >>=-ok _ _ w r h in
      elim (check_deploy_cases ns "kube-apiserver" w a first) [
        | inl e ↦ inl (stop_early a r _ _ e rest)
        | inr (e, ready) ↦
            elim (check_deploy_cases ns "kube-controller-manager" _ r (go_on a _ _ _ e rest)) [
              | inl q ↦ inl q
              | inr (q, ready') ↦ inr (
                q,
                ready,
                AllReady-reads _ w _ (check_deploy-reads ns "kube-apiserver" w Kind.deployment _)
                    ready',
              )
            ]
      ]
    where
      ns : String
      ns = cluster_namespace_in_host t

  pub check_ready-reads :
      (t : Tenant) (w : W) (k : Kind) (slot : ObjectKey)
      → lookup k slot (check_ready p c t w).1 ≡ lookup k slot w
  unfolding check_ready
  check_ready-reads t w k slot = keeps_slot.run w refl
    where
      deploy-Keeps :
          (ns name : String)
          → Keeps (λ x. lookup k slot x ≡ lookup k slot w) (check_deploy p c ns name)
      deploy-Keeps ns name = record { run = λ x e. check_deploy-reads ns name x k slot ∙ e }

      keeps_slot : Keeps (λ x. lookup k slot x ≡ lookup k slot w) (check_ready p c t)
      keeps_slot = search (keeps, deploy-Keeps) depth 8
