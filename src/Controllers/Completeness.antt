-- ===== src/Controllers/Completeness.antt =====
-- `reconcileSecret`, `reconcileKubeConfig`, `reconcileAPIServer` and `reconcileControllerManager`
-- (tenant_controller_phase.go) leave nothing out.
use multi_tenants.Base.{
  String, ◌>>=◌, ◌≡◌, ◌∙◌, subst, inl, inr, Call, Keeps, Keeps-pure, Keeps-bind, Ensures,
  Ensures-bind_first, Ensures-bind_last, pure,
}
use multi_tenants.Api.{Kind, Kind-discrete, Object, ObjectKey, ObjectKey_eq, Tenant}
use multi_tenants.Secret.{Config}
use multi_tenants.Client.Server.{Lookup}
use multi_tenants.ControllerUtil.{MutateFn, create_if_not_exists}
use multi_tenants.ControllerUtil.Creating.{IsPresent, create_if_not_exists-Ensures}
use multi_tenants.Controllers.Setup.{Platform, TenantController}
use multi_tenants.Controllers.Secrets.{
  new_secret, fill_server_cert, reconcile_secret, fill_kube_config, create_kube_config,
  reconcile_kube_config,
}
use multi_tenants.Controllers.ApiServer.{
  new_deployment, new_service, fill_service, reconcile_api_server,
}
use multi_tenants.Controllers.ControllerManager.{reconcile_controller_manager}
use multi_tenants.Controllers.Normal.{provision}
use multi_tenants.Controllers.Ownership.{
  OwnedKeeps, reconcile_kube_config-Keeps, reconcile_api_server-Keeps,
  reconcile_controller_manager-Keeps, create_kube_config-Keeps, create_service-Keeps,
}
use multi_tenants.Controllers.Readiness.{key_in_host}
use multi_tenants.Controllers.Footprint.{IsLawfulPlatform}

module _ {W : Type 0} (p : Platform W) (c : TenantController) (lookup : Lookup W)
    (lawful : IsLawfulPlatform p lookup) (t : Tenant) where
  IsPresent-unchanged :
      (k : Kind) (slot : ObjectKey) (w w' : W)
      → lookup k slot w' ≡ lookup k slot w
      → IsPresent lookup k slot w
      → IsPresent lookup k slot w'
  IsPresent-unchanged k slot w w' same (o, held) = (o, same ∙ held)

  create-Keeps :
      (k : Kind) (slot : ObjectKey) (j : Kind) (o : Object j)
      → Keeps (IsPresent lookup k slot) (p.client.create j o)
  create-Keeps k slot j o = record {
    run = λ w. elim (Kind-discrete j k) [
      | no differ ↦
          IsPresent-unchanged k slot w (p.client.create j o w).1
            (lawful.client.create-frame j k o slot w (λ e _. differ e))
      | yes e ↦ elim (ObjectKey_eq.dec (p.client.object_key j o) slot) [
        | yes same ↦
            subst
              (λ x. IsPresent lookup x slot w → IsPresent lookup x slot (p.client.create j o w).1) e
              (subst (λ x. IsPresent lookup j x w → IsPresent lookup j x (p.client.create j o w).1)
                same (at_slot j o w))
        | no differ ↦
            IsPresent-unchanged k slot w (p.client.create j o w).1
              (lawful.client.create-frame j k o slot w (λ _ e'. differ e'))
      ]
    ];
  }
    where
      at_slot :
          (j : Kind) (o : Object j) (w : W)
          → IsPresent lookup j (p.client.object_key j o) w
          → IsPresent lookup j (p.client.object_key j o) (p.client.create j o w).1
      at_slot j o w (x, held) = elim (lawful.client.create-slot j o w) [
        | inl same ↦ (x, same ∙ held)
        | inr (_, (o', held', _)) ↦ (o', held')
      ]

  -- What is there stays there.
  pub IsPresent-OwnedKeeps :
      (k : Kind) (slot : ObjectKey) → OwnedKeeps p t (IsPresent lookup k slot)
  IsPresent-OwnedKeeps k slot = record {
    crypto = record {
      now = λ w. IsPresent-unchanged k slot w _ (lawful.now-reads k slot w);
      generate_key = λ bits. record {
        run = λ w. IsPresent-unchanged k slot w _ (lawful.generate_key-reads k slot bits w);
      };
      create_certificate = λ a b key s. record {
        run = λ w.
            IsPresent-unchanged k slot w _ (lawful.create_certificate-reads k slot a b key s w);
      };
    };
    get = λ j key. record {
      run = λ w. IsPresent-unchanged k slot w _ (lawful.client.get-reads j k key slot w);
    };
    create = λ j o _. create-Keeps k slot j o;
  }

  abbrev Present : Kind → String → W → Type 0
  Present k name = IsPresent lookup k (key_in_host t name)

  present-Ensures :
      (k : Kind) (name : String) (f : MutateFn W k) (o : Object k)
      → p.client.object_key k o ≡ key_in_host t name
      → Ensures (Present k name) (create_if_not_exists p.client p.machinery k o f)
  present-Ensures k name f o e =
      subst (λ x. Ensures (IsPresent lookup k x) (create_if_not_exists p.client p.machinery k o f))
        e (create_if_not_exists-Ensures p.client p.machinery lookup lawful.client k f o)

  then_pure :
      {A : Type 0} (P : W → Type 0) (m : Call W A) → Ensures P m → Ensures P (m >>= λ _. pure tt)
  then_pure P m h = Ensures-bind_first _ _ h (λ _. Keeps-pure _)

  server_cert-Ensures : Ensures (Present Kind.secret "server-cert") (reconcile_secret p c t)
  unfolding reconcile_secret
  server_cert-Ensures = then_pure _ _ (
      present-Ensures Kind.secret "server-cert" (fill_server_cert p c t)
        (new_secret t "server-cert")
        (lawful.client.object_key_lem Kind.secret (new_secret t "server-cert")))

  kube_config-Ensures :
      (name file : String) (config : Config)
      → Ensures (Present Kind.secret name) (create_kube_config p t name file config)
  unfolding create_kube_config
  kube_config-Ensures name file config = then_pure _ _ (
      present-Ensures Kind.secret name (fill_kube_config p t file config) (new_secret t name)
        (lawful.client.object_key_lem Kind.secret (new_secret t name)))

  kube_config-Keeps :
      (k : Kind) (slot : ObjectKey) (name file : String) (config : Config)
      → Keeps (IsPresent lookup k slot) (create_kube_config p t name file config)
  kube_config-Keeps k slot name file config =
      create_kube_config-Keeps p t _ (IsPresent-OwnedKeeps k slot) name file config

  admin-Ensures : Ensures (Present Kind.secret "kubeconfig-admin") (reconcile_kube_config p t)
  unfolding reconcile_kube_config
  admin-Ensures =
      Ensures-bind_first _ _ (kube_config-Ensures _ _ _)
        (λ _. kube_config-Keeps Kind.secret (key_in_host t "kubeconfig-admin") _ _ _)

  manager-Ensures :
      Ensures (Present Kind.secret "kubeconfig-controller-manager") (reconcile_kube_config p t)
  unfolding reconcile_kube_config
  manager-Ensures = Ensures-bind_last _ _ (λ _. kube_config-Ensures _ _ _)

  deployment-Ensures :
      (name : String) (f : MutateFn W Kind.deployment)
      → Ensures
          (Present Kind.deployment name)
          (create_if_not_exists p.client p.machinery Kind.deployment (new_deployment t name) f)
  deployment-Ensures name f =
      present-Ensures Kind.deployment name f (new_deployment t name)
        (lawful.client.object_key_lem Kind.deployment (new_deployment t name))

  api_server-Ensures :
      Ensures (Present Kind.deployment "kube-apiserver") (reconcile_api_server p c t)
  unfolding reconcile_api_server
  api_server-Ensures = Ensures-bind_first _ _ (deployment-Ensures _ _) (λ _.
      Keeps-bind _ _
        (create_service-Keeps p t _ (IsPresent-OwnedKeeps Kind.deployment _) "kube-apiserver")
        (λ _. Keeps-pure _))

  service-Ensures : Ensures (Present Kind.service "kube-apiserver") (reconcile_api_server p c t)
  unfolding reconcile_api_server
  service-Ensures = Ensures-bind_last _ _ (λ _. then_pure _ _ (
      present-Ensures Kind.service "kube-apiserver" (fill_service p t)
        (new_service t "kube-apiserver")
        (lawful.client.object_key_lem Kind.service (new_service t "kube-apiserver"))))

  controller_manager-Ensures :
      Ensures (Present Kind.deployment "kube-controller-manager") (reconcile_controller_manager p t)
  unfolding reconcile_controller_manager
  controller_manager-Ensures = then_pure _ _ (deployment-Ensures _ _)

  -- The six objects of a tenant's control plane.
  pub record IsProvisioned (w : W) : Type 0 where
    pub server_cert : Present Kind.secret "server-cert" w
    pub admin : Present Kind.secret "kubeconfig-admin" w
    pub manager : Present Kind.secret "kubeconfig-controller-manager" w
    pub api_server : Present Kind.deployment "kube-apiserver" w
    pub service : Present Kind.service "kube-apiserver" w
    pub controller_manager : Present Kind.deployment "kube-controller-manager" w

  abbrev rest_keeps : (k : Kind) (name : String) → OwnedKeeps p t (Present k name)
  rest_keeps k name = IsPresent-OwnedKeeps k (key_in_host t name)

  secret_part :
      (k : Kind) (name : String)
      → Ensures (Present k name) (reconcile_secret p c t)
      → Ensures (Present k name) (provision p c t)
  unfolding provision
  secret_part k name h =
      let o = rest_keeps k name in
      Ensures-bind_first _ _ h (λ _. Keeps-bind _ _ (reconcile_kube_config-Keeps p t _ o) (λ _.
        Keeps-bind _ _ (reconcile_api_server-Keeps p t _ o c)
          (λ _. reconcile_controller_manager-Keeps p t _ o)))

  kube_config_part :
      (k : Kind) (name : String)
      → Ensures (Present k name) (reconcile_kube_config p t)
      → Ensures (Present k name) (provision p c t)
  unfolding provision
  kube_config_part k name h =
      let o = rest_keeps k name in
      Ensures-bind_last _ _ (λ _. Ensures-bind_first _ _ h (λ _.
        Keeps-bind _ _ (reconcile_api_server-Keeps p t _ o c)
          (λ _. reconcile_controller_manager-Keeps p t _ o)))

  api_server_part :
      (k : Kind) (name : String)
      → Ensures (Present k name) (reconcile_api_server p c t)
      → Ensures (Present k name) (provision p c t)
  unfolding provision
  api_server_part k name h = Ensures-bind_last _ _ (λ _. Ensures-bind_last _ _ (λ _.
      Ensures-bind_first _ _ h (λ _. reconcile_controller_manager-Keeps p t _ (rest_keeps k name))))

  manager_part :
      (k : Kind) (name : String)
      → Ensures (Present k name) (reconcile_controller_manager p t)
      → Ensures (Present k name) (provision p c t)
  unfolding provision
  manager_part k name h =
      Ensures-bind_last _ _ (λ _. Ensures-bind_last _ _ (λ _. Ensures-bind_last _ _ (λ _. h)))

  -- When all four phases succeed, the server holds all six objects of the control plane of the
  -- tenant: three secrets, two deployments and a service, whichever of them were there before.
  -- The code outside behaves as documented.
  pub provision-Ensures : Ensures IsProvisioned (provision p c t)
  provision-Ensures = record {
    after = λ w a h. record {
      server_cert = (secret_part Kind.secret "server-cert" server_cert-Ensures).after w a h;
      admin = (kube_config_part Kind.secret "kubeconfig-admin" admin-Ensures).after w a h;
      manager =
          (kube_config_part Kind.secret "kubeconfig-controller-manager" manager-Ensures).after w a
            h;
      api_server =
          (api_server_part Kind.deployment "kube-apiserver" api_server-Ensures).after w a h;
      service = (api_server_part Kind.service "kube-apiserver" service-Ensures).after w a h;
      controller_manager =
          (manager_part Kind.deployment "kube-controller-manager" controller_manager-Ensures).after
            w a h;
    };
  }
