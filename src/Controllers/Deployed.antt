-- ===== src/Controllers/Deployed.antt =====
-- The Deployments and the Service that the phases (tenant_controller_phase.go) leave on the server.
use multi_tenants.Base.{
  String, ◌≡◌, refl, sym, ◌∙◌, subst, inl, some, ok, Call, ◌>>=◌, ◌>>◌, pure, Keeps, Returns-pure,
  string_eq, string_differs,
}
use multi_tenants.Api.{
  Kind, Object, ObjectKey, Deployment, DeploymentSpec, Service, ServiceSpec, Tenant,
}
use multi_tenants.Client.Server.{Lookup}
use multi_tenants.ControllerUtil.{OperationResult, create_if_not_exists}
use multi_tenants.Controllers.Setup.{Platform, TenantController}
use multi_tenants.Controllers.Secrets.{reconcile_secret, reconcile_kube_config}
use multi_tenants.Controllers.ApiServer.{
  new_deployment, new_service, fill_deployment, fill_service, api_server_spec, api_server_service,
  reconcile_api_server,
}
use multi_tenants.Controllers.ControllerManager.{
  controller_manager_spec, reconcile_controller_manager,
}
use multi_tenants.Controllers.Normal.{provision}
use multi_tenants.Controllers.Ownership.{
  OwnedKeeps, create_service-Keeps, reconcile_controller_manager-Keeps,
}
use multi_tenants.Controllers.Footprint.{IsLawfulPlatform, SlotStep, SlotStep-OwnedKeeps}
use multi_tenants.Controllers.Readiness.{key_in_host}
use multi_tenants.Controllers.Made.{
  follow, held_on, made, IsFilledIn, Missing, reconcile_secret-Missing,
  reconcile_kube_config-Missing, deployment-Missing, service-Missing,
}

module _ {W : Type 0} (p : Platform W) (lookup : Lookup W) (lawful : IsLawfulPlatform p lookup)
    (t : Tenant) where
  -- The server holds a Deployment with the specification.
  abbrev pub Deploys : String → DeploymentSpec → W → Type 0
  Deploys name spec w =
      (d : Deployment) × (lookup Kind.deployment (key_in_host t name) w ≡ some d)
      × (d.spec ≡ some spec)

  abbrev pub Routes : String → ServiceSpec → W → Type 0
  Routes name spec w =
      (s : Service) × (lookup Kind.service (key_in_host t name) w ≡ some s) × (s.spec ≡ some spec)

  -- The server has neither Deployment, and no Service.
  pub record IsUndeployed (w : W) : Type 0 where
    pub api_server : Missing p lookup lawful t Kind.deployment "kube-apiserver" w
    pub service : Missing p lookup lawful t Kind.service "kube-apiserver" w
    pub manager : Missing p lookup lawful t Kind.deployment "kube-controller-manager" w

  deployed :
      (name : String) (spec : DeploymentSpec) (w : W)
      → IsFilledIn p lookup lawful t Kind.deployment (λ d. d.spec ≡ some spec) name w
      → Deploys name spec w
  deployed name spec w x = (x.stored, x.held, x.alike.1 ∙ x.promised)

  routed :
      (name : String) (spec : ServiceSpec) (w : W)
      → IsFilledIn p lookup lawful t Kind.service (λ s. s.spec ≡ some spec) name w
      → Routes name spec w
  routed name spec w x = (x.stored, x.held, x.alike.1 ∙ x.promised)

  abbrev deploy : String → DeploymentSpec → Call W OperationResult
  deploy name spec =
      create_if_not_exists p.client p.machinery Kind.deployment (new_deployment t name)
        (fill_deployment p t spec)

  deploy-Deploys :
      (name : String) (spec : DeploymentSpec) (w : W) (r : OperationResult)
      → Missing p lookup lawful t Kind.deployment name w
      → (deploy name spec w).0 ≡ ok r
      → Deploys name spec (deploy name spec w).1
  unfolding fill_deployment
  deploy-Deploys name spec w r empty done = deployed name spec _ (
      made p lookup lawful t Kind.deployment (new_deployment t name) (fill_deployment p t spec) _
        name w r (lawful.client.object_key_lem Kind.deployment (new_deployment t name)) empty
        (Returns-pure _ refl) done)

  abbrev serve : String → Call W OperationResult
  serve name =
      create_if_not_exists p.client p.machinery Kind.service (new_service t name) (fill_service p t)

  serve-Routes :
      (name : String) (w : W) (r : OperationResult)
      → Missing p lookup lawful t Kind.service name w
      → (serve name w).0 ≡ ok r
      → Routes name (api_server_service t) (serve name w).1
  unfolding fill_service
  serve-Routes name w r empty done = routed name (api_server_service t) _ (
      made p lookup lawful t Kind.service (new_service t name) (fill_service p t) _ name w r
        (lawful.client.object_key_lem Kind.service (new_service t name)) empty (Returns-pure _ refl)
        done)

  -- A call of the controller keeps what is held.
  held_over :
      (k : Kind) (slot : ObjectKey) (o : Object k) (w w' : W)
      → ((P : W → Type 0) → OwnedKeeps p t P → P w → P w')
      → lookup k slot w ≡ some o
      → lookup k slot w' ≡ some o
  held_over k slot o w w' keeps held =
      held_on p lookup lawful t k slot o w w'
        (keeps (SlotStep lookup t k slot w) (SlotStep-OwnedKeeps p lookup lawful t w k slot)
          (inl refl))
        held

  module _ (c : TenantController) where
    pub record IsDeployed (w : W) : Type 0 where
      pub api_server : Deploys "kube-apiserver" (api_server_spec c t) w
      pub service : Routes "kube-apiserver" (api_server_service t) w
      pub manager : Deploys "kube-controller-manager" (controller_manager_spec t) w

    -- The third phase.
    api_server_made :
        (w : W)
        → IsUndeployed w
        → (reconcile_api_server p c t w).0 ≡ ok tt
        → Deploys "kube-apiserver" (api_server_spec c t) (reconcile_api_server p c t w).1
          × Routes "kube-apiserver" (api_server_service t) (reconcile_api_server p c t w).1
          × Missing p lookup lawful t Kind.deployment "kube-controller-manager"
              (reconcile_api_server p c t w).1
    unfolding reconcile_api_server pure string_eq
    api_server_made w empty h =
        let first = deploy "kube-apiserver" (api_server_spec c t) in
        let (r, done, same, rest) =
          follow first (λ _. do _ ← serve "kube-apiserver"; pure tt) w tt h in
        let w1 = (first w).1 in
        let (r', done', same', _) = follow (serve "kube-apiserver") (λ _. pure tt) w1 tt rest in
        let w2 = (serve "kube-apiserver" w1).1 in
        let (d, held, spec) = deploy-Deploys _ _ w r empty.api_server done in
        let no_service =
          (deployment-Missing p lookup lawful t Kind.service "kube-apiserver" "kube-apiserver"
              (api_server_spec c t) (λ e _. cc)).run
            w empty.service in
        let no_manager =
          (deployment-Missing p lookup lawful t Kind.deployment "kube-controller-manager"
              "kube-apiserver" (api_server_spec c t)
              (λ _. string_differs "kube-apiserver" "kube-controller-manager" refl)).run
            w empty.manager in
        let no_manager' =
          (service-Missing p lookup lawful t Kind.deployment "kube-controller-manager"
              "kube-apiserver" (λ e _. cc)).run
            w1 no_manager in
        subst
          (λ x.
            Deploys "kube-apiserver" (api_server_spec c t) x.1
            × Routes "kube-apiserver" (api_server_service t) x.1
            × Missing p lookup lawful t Kind.deployment "kube-controller-manager" x.1)
          (sym (same ∙ same'))
          (
            (
              d,
              held_over Kind.deployment _ d w1 w2
                  (λ P o. (create_service-Keeps p t P o "kube-apiserver").run w1) held,
              spec,
            ),
            serve-Routes "kube-apiserver" w1 r' no_service done',
            no_manager',
          )

    manager_made :
        (w : W)
        → Missing p lookup lawful t Kind.deployment "kube-controller-manager" w
        → (reconcile_controller_manager p t w).0 ≡ ok tt
        → Deploys "kube-controller-manager"
            (controller_manager_spec t)
            (reconcile_controller_manager p t w).1
    unfolding reconcile_controller_manager pure
    manager_made w empty h =
        let call = deploy "kube-controller-manager" (controller_manager_spec t) in
        let (r, done, same, _) = follow call (λ _. pure tt) w tt h in
        subst (λ x. Deploys "kube-controller-manager" (controller_manager_spec t) x.1) (sym same)
          (deploy-Deploys _ _ w r empty done)

    abbrev last : Call W (Unit {0})
    last = do reconcile_api_server p c t; reconcile_controller_manager p t

    last-IsDeployed : (w : W) → IsUndeployed w → (last w).0 ≡ ok tt → IsDeployed (last w).1
    last-IsDeployed w empty h =
        let (_, done, same, rest) =
          follow (reconcile_api_server p c t) (λ _. reconcile_controller_manager p t) w tt h in
        let w1 = (reconcile_api_server p c t w).1 in
        let w2 = (reconcile_controller_manager p t w1).1 in
        let ((d, held, spec), (s, held', spec'), no_manager) = api_server_made w empty done in
        let keeps = λ (P : W → Type 0) (o : OwnedKeeps p t P).
          (reconcile_controller_manager-Keeps p t P o).run w1 in
        subst (λ x. IsDeployed x.1) (sym same)
          (record {
            api_server = (d, held_over Kind.deployment _ d w1 w2 keeps held, spec);
            service = (s, held_over Kind.service _ s w1 w2 keeps held', spec');
            manager = manager_made w1 no_manager rest;
          })

    abbrev phases : Call W (Unit {0})
    phases = do reconcile_kube_config p t; last

    -- What the first two phases leave empty.
    kept-IsUndeployed :
        (m : Call W (Unit {0}))
        → ((k : Kind) (name : String)
            → (Kind.secret ≡ k → ⊥)
            → Keeps (Missing p lookup lawful t k name) m)
        → (w : W) → IsUndeployed w
        → IsUndeployed (m w).1
    kept-IsUndeployed m keeps w h = record {
      api_server = (keeps Kind.deployment "kube-apiserver" (λ e. cc)).run w h.api_server;
      service = (keeps Kind.service "kube-apiserver" (λ e. cc)).run w h.service;
      manager = (keeps Kind.deployment "kube-controller-manager" (λ e. cc)).run w h.manager;
    }

    -- Where neither Deployment and no Service was, a run of the phases that succeeds leaves all
    -- three with the specifications of the source.
    pub provision-IsDeployed :
        (w : W) → IsUndeployed w → (provision p c t w).0 ≡ ok tt → IsDeployed (provision p c t w).1
    unfolding provision
    provision-IsDeployed w empty h =
        let (_, done, same, h') = follow (reconcile_secret p c t) (λ _. phases) w tt h in
        let w1 = (reconcile_secret p c t w).1 in
        let (_, done', same', h'') = follow (reconcile_kube_config p t) (λ _. last) w1 tt h' in
        let w2 = (reconcile_kube_config p t w1).1 in
        let empty1 =
          kept-IsUndeployed (reconcile_secret p c t)
            (λ k name differ. reconcile_secret-Missing p lookup lawful t k name c (λ e _. differ e))
            w empty in
        let empty2 =
          kept-IsUndeployed (reconcile_kube_config p t)
            (λ k name differ. reconcile_kube_config-Missing p lookup lawful t k name differ) w1
            empty1 in
        subst (λ x. IsDeployed x.1) (sym (same ∙ same')) (last-IsDeployed w2 empty2 h'')
