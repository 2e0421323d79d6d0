-- ===== src/Controllers/ControllerManager.antt =====
-- `reconcileControllerManager` of tenant_controller_phase.go.
use multi_tenants.Base.{true, some, [], ◌∷◌, Call, pure, ◌>>=◌}
use multi_tenants.Api.{Kind, DeploymentSpec, Container, Tenant}
use multi_tenants.ControllerUtil.{create_if_not_exists}
use multi_tenants.Controllers.Setup.{Platform}
use multi_tenants.Controllers.ApiServer.{new_deployment, labels_of, probe, fill_deployment}

unfoldable pub controller_manager_container : Container
controller_manager_container = record {
  name = "controller-manager";
  image = "k8s.gcr.io/kube-controller-manager:v1.23.4";
  image_pull_policy = "IfNotPresent";
  command =
      "kube-controller-manager" ∷ "--allocate-node-cidrs=true"
      ∷ "--authentication-kubeconfig=/etc/kubernetes/kubeconfig/controller-manager.conf"
      ∷ "--authorization-kubeconfig=/etc/kubernetes/kubeconfig/controller-manager.conf"
      ∷ "--bind-address=0.0.0.0" ∷ "--client-ca-file=/etc/kubernetes/pki/ca.crt"
      ∷ "--cluster-cidr=10.100.0.0/16" ∷ "--cluster-signing-cert-file=/etc/kubernetes/pki/ca.crt"
      ∷ "--cluster-signing-key-file=/etc/kubernetes/pki/ca.key"
      ∷ "--controllers=*,bootstrapsigner,tokencleaner"
      ∷ "--kubeconfig=/etc/kubernetes/kubeconfig/controller-manager.conf" ∷ "--leader-elect=true"
      ∷ "--node-cidr-mask-size=24"
      ∷ "--requestheader-client-ca-file=/etc/kubernetes/pki/front-proxy-ca.crt"
      ∷ "--root-ca-file=/etc/kubernetes/pki/ca.crt"
      ∷ "--service-account-private-key-file=/etc/kubernetes/pki/sa.key"
      ∷ "--use-service-account-credentials=true" ∷ [];
  volume_mounts =
      record { name = "server-cert"; mount_path = "/etc/kubernetes/pki"; read_only = true }
      ∷ record { name = "kubeconfig"; mount_path = "/etc/kubernetes/kubeconfig"; read_only = true }
      ∷ [];
  liveness_probe = some (probe "/livez" 10 10 15 1 8);
  readiness_probe = some (probe "/readyz" 0 1 15 1 3);
  startup_probe = some (probe "/livez" 10 10 15 1 24);
}

unfoldable pub controller_manager_spec : Tenant → DeploymentSpec
unfolding controller_manager_container
controller_manager_spec t = record {
  replicas = some 1;
  match_labels = labels_of "kube-controller-manager" t;
  template = record {
    labels = labels_of "kube-controller-manager" t;
    containers = controller_manager_container ∷ [];
    volumes =
        record { name = "server-cert"; secret_name = "server-cert" }
        ∷ record { name = "kubeconfig"; secret_name = "kubeconfig-controller-manager" }
        ∷ [];
  };
}

module _ {W : Type 0} (p : Platform W) where
  unfoldable pub reconcile_controller_manager : Tenant → Call W (Unit {0})
  reconcile_controller_manager t = do
    _ ←
        create_if_not_exists p.client p.machinery Kind.deployment
          (new_deployment t "kube-controller-manager")
          (fill_deployment p t (controller_manager_spec t))
    pure tt
