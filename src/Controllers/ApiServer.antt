-- ===== src/Controllers/ApiServer.antt =====
-- `reconcileAPIServer` of tenant_controller_phase.go.
use multi_tenants.Base.{ℕ, String, ◌<>◌, true, none, some, [], ◌∷◌, Call, pure, ◌>>=◌}
use multi_tenants.Api.{
  Kind, Deployment, DeploymentSpec, Service, ServiceSpec, Labels, Container, Probe, Tenant,
  from_int,
}
use multi_tenants.ControllerUtil.{MutateFn, create_if_not_exists}
use multi_tenants.Controllers.Setup.{Platform, TenantController, meta_in_host, owned}

-- The literals that both deployments repeat.
abbrev pub new_deployment : Tenant → String → Deployment
new_deployment t name = record {
  object_meta = meta_in_host t name;
  spec = none;
  status = record { replicas = 0; ready_replicas = 0 };
}

abbrev pub labels_of : String → Tenant → Labels
labels_of app t = ("app", app) ∷ ("tenant", t.object_meta.name) ∷ []

-- An HTTPS probe of 127.0.0.1:6443.
abbrev pub probe : String → (initial_delay period timeout success failure : ℕ) → Probe
probe path initial_delay period timeout success failure = record {
  http_get = record { host = "127.0.0.1"; path = path; port = from_int 6443; scheme = "HTTPS" };
  initial_delay_seconds = initial_delay;
  period_seconds = period;
  timeout_seconds = timeout;
  success_threshold = success;
  failure_threshold = failure;
}

unfoldable pub api_server_container : TenantController → Tenant → Container
api_server_container c t = record {
  name = "apiserver";
  image = "k8s.gcr.io/kube-apiserver:v1.23.4";
  image_pull_policy = "IfNotPresent";
  command =
      "kube-apiserver"
      ∷ "--advertise-address=0.0.0.0"
      ∷ "--allow-privileged=true"
      ∷ "--authorization-mode=Node,RBAC"
      ∷ "--client-ca-file=/etc/kubernetes/pki/ca.crt"
      ∷ "--enable-admission-plugins=NodeRestriction"
      ∷ "--enable-bootstrap-token-auth=true"
      ∷ "--etcd-cafile=/etc/kubernetes/pki/etcd-ca.crt"
      ∷ "--etcd-certfile=/etc/kubernetes/pki/apiserver-etcd-client.crt"
      ∷ "--etcd-keyfile=/etc/kubernetes/pki/apiserver-etcd-client.key"
      ∷ ("--etcd-servers=" <> c.etcd_servers)
      ∷ ("--etcd-prefix=/" <> t.object_meta.name <> "/registry")
      ∷ "--insecure-port=0"
      ∷ "--kubelet-client-certificate=/etc/kubernetes/pki/apiserver-kubelet-client.crt"
      ∷ "--kubelet-client-key=/etc/kubernetes/pki/apiserver-kubelet-client.key"
      ∷ "--kubelet-preferred-address-types=InternalIP,ExternalIP,Hostname"
      ∷ "--proxy-client-cert-file=/etc/kubernetes/pki/front-proxy-client.crt"
      ∷ "--proxy-client-key-file=/etc/kubernetes/pki/front-proxy-client.key"
      ∷ "--requestheader-allowed-names=front-proxy-client"
      ∷ "--requestheader-client-ca-file=/etc/kubernetes/pki/front-proxy-ca.crt"
      ∷ "--requestheader-extra-headers-prefix=X-Remote-Extra-"
      ∷ "--requestheader-group-headers=X-Remote-Group"
      ∷ "--requestheader-username-headers=X-Remote-User"
      ∷ "--secure-port=6443"
      ∷ "--service-account-issuer=https://kubernetes.default.svc.cluster.local"
      ∷ "--service-account-key-file=/etc/kubernetes/pki/sa.pub"
      ∷ "--service-account-signing-key-file=/etc/kubernetes/pki/sa.key"
      ∷ "--service-cluster-ip-range=10.101.0.0/16"
      ∷ "--tls-cert-file=/etc/kubernetes/pki/apiserver.crt"
      ∷ "--tls-private-key-file=/etc/kubernetes/pki/apiserver.key"
      ∷ [];
  volume_mounts =
      record { name = "server-cert"; mount_path = "/etc/kubernetes/pki"; read_only = true } ∷ [];
  liveness_probe = some (probe "/livez" 10 10 15 1 8);
  readiness_probe = some (probe "/readyz" 0 1 15 1 3);
  startup_probe = some (probe "/livez" 10 10 15 1 24);
}

unfoldable pub api_server_spec : TenantController → Tenant → DeploymentSpec
unfolding api_server_container
api_server_spec c t = record {
  replicas = some 1;
  match_labels = labels_of "kube-apiserver" t;
  template = record {
    labels = labels_of "kube-apiserver" t;
    containers = api_server_container c t ∷ [];
    volumes = record { name = "server-cert"; secret_name = "server-cert" } ∷ [];
  };
}

unfoldable pub api_server_service : Tenant → ServiceSpec
api_server_service t = record {
  selector = labels_of "kube-apiserver" t;
  ports =
      record { name = "https"; protocol = "TCP"; port = 6443; target_port = from_int 6443 } ∷ [];
}

abbrev pub new_service : Tenant → String → Service
new_service t name = record { object_meta = meta_in_host t name; spec = none }

module _ {W : Type 0} (p : Platform W) where
  unfoldable pub fill_deployment : Tenant → DeploymentSpec → MutateFn W Kind.deployment
  fill_deployment t spec obj =
      pure (record obj { object_meta = owned t obj.object_meta; spec = some spec })

  unfoldable pub fill_service : Tenant → MutateFn W Kind.service
  fill_service t obj =
      pure
        (record obj { object_meta = owned t obj.object_meta; spec = some (api_server_service t) })

  unfoldable pub reconcile_api_server : TenantController → Tenant → Call W (Unit {0})
  reconcile_api_server c t = do
    _ ←
        create_if_not_exists p.client p.machinery Kind.deployment
          (new_deployment t "kube-apiserver") (fill_deployment t (api_server_spec c t))
    _ ←
        create_if_not_exists p.client p.machinery Kind.service (new_service t "kube-apiserver")
          (fill_service t)
    pure tt
