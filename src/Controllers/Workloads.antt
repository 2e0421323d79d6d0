-- ===== src/Controllers/Workloads.antt =====
-- The pods of a tenant's control plane against the secrets and labels that they refer to
-- (tenant_controller_phase.go).
use multi_tenants.Base.{
  string_same, String, Bool, true, false, ◌&&◌, ◌≡◌, refl, none, some, List, [], ◌∷◌, ◌==◌,
  string_eq, option_eq, if◌then◌else◌, lookup, All, ok,
}
use multi_tenants.Api.{
  Kind, Tenant, Labels, Deployment, DeploymentSpec, Service, ServiceSpec, Container, Volume,
}
use multi_tenants.Client.Server.{Lookup}
use multi_tenants.ControllerUtil.Creating.{IsPresent}
use multi_tenants.Controllers.Setup.{Platform, TenantController}
use multi_tenants.Controllers.ApiServer.{api_server_container, api_server_spec, api_server_service}
use multi_tenants.Controllers.ControllerManager.{
  controller_manager_container, controller_manager_spec,
}
use multi_tenants.Controllers.Normal.{provision}
use multi_tenants.Controllers.Readiness.{key_in_host}
use multi_tenants.Controllers.Footprint.{IsLawfulPlatform}
use multi_tenants.Controllers.Deployed.{IsUndeployed, provision-IsDeployed}
use multi_tenants.Controllers.Completeness.{IsProvisioned, provision-Ensures}

has_label : String → String → Labels → Bool
has_label k v labels = elim (lookup k labels) [ some x ↦ x == v | none ↦ false ]

-- A selector takes what has all its labels.
unfoldable pub selects : Labels → Labels → Bool
unfolding has_label
selects [] labels = true
selects ((k, v) ∷ selector) labels = has_label k v labels && selects selector labels

unfoldable pub volume_named : String → List Volume → Bool
volume_named name [] = false
volume_named name (v ∷ vs) = if v.name == name then true else volume_named name vs

-- Each volume that the container mounts is one of the pod.
abbrev pub IsMounted : List Volume → Container → Type 0
IsMounted volumes c = All (λ m. volume_named m.name volumes ≡ true) c.volume_mounts

own_labels :
    (a b : String)
    → selects (("app", a) ∷ ("tenant", b) ∷ []) (("app", a) ∷ ("tenant", b) ∷ []) ≡ true
unfolding selects lookup string_eq
own_labels a b = both (string_same a) (string_same b)
  where
    both : {x y : Bool} → x ≡ true → y ≡ true → (x && (y && true)) ≡ true
    both e e' = rw (e, e') refl

module _ {W : Type 0} (p : Platform W) (c : TenantController) (lookup_in : Lookup W)
    (lawful : IsLawfulPlatform p lookup_in) where
  -- The deployment finds its own pods, which run the one program, and their secrets are there.
  pub record CanStart (t : Tenant) (program : String) (spec : DeploymentSpec) (w : W) : Type 0 where
    pub selected : selects spec.match_labels spec.template.labels ≡ true
    pub container : Container
    pub alone : spec.template.containers ≡ container ∷ []
    pub arguments : List String
    pub command : container.command ≡ program ∷ arguments
    pub mounted : IsMounted spec.template.volumes container
    pub secrets :
        All
          (λ v. IsPresent lookup_in Kind.secret (key_in_host t v.secret_name) w)
          spec.template.volumes

  -- The server holds both Deployments, which can start, and a Service, which reaches the pods of
  -- the API server alone.
  pub record IsServed (t : Tenant) (w : W) : Type 0 where
    pub api_server : Deployment
    pub api_server_held :
        lookup_in Kind.deployment (key_in_host t "kube-apiserver") w ≡ some api_server
    pub api_spec : DeploymentSpec
    pub api_specified : api_server.spec ≡ some api_spec
    pub api_starts : CanStart t "kube-apiserver" api_spec w
    pub manager : Deployment
    pub manager_held :
        lookup_in Kind.deployment (key_in_host t "kube-controller-manager") w ≡ some manager
    pub manager_spec : DeploymentSpec
    pub manager_specified : manager.spec ≡ some manager_spec
    pub manager_starts : CanStart t "kube-controller-manager" manager_spec w
    pub service : Service
    pub service_held : lookup_in Kind.service (key_in_host t "kube-apiserver") w ≡ some service
    pub service_spec : ServiceSpec
    pub service_specified : service.spec ≡ some service_spec
    pub routed : selects service_spec.selector api_spec.template.labels ≡ true
    pub apart : selects service_spec.selector manager_spec.template.labels ≡ false

  api_server-CanStart :
      (t : Tenant) (w : W)
      → IsProvisioned p c lookup_in lawful t w
      → CanStart t "kube-apiserver" (api_server_spec c t) w
  unfolding api_server_spec api_server_container volume_named string_eq
  api_server-CanStart t w h = record {
    selected = own_labels "kube-apiserver" t.object_meta.name;
    container = api_server_container c t;
    alone = refl;
    arguments = _;
    command = refl;
    mounted = (refl, tt);
    secrets = (h.server_cert, tt);
  }

  controller_manager-CanStart :
      (t : Tenant) (w : W)
      → IsProvisioned p c lookup_in lawful t w
      → CanStart t "kube-controller-manager" (controller_manager_spec t) w
  unfolding controller_manager_spec controller_manager_container volume_named string_eq
  controller_manager-CanStart t w h = record {
    selected = own_labels "kube-controller-manager" t.object_meta.name;
    container = controller_manager_container;
    alone = refl;
    arguments = _;
    command = refl;
    mounted = (refl, (refl, tt));
    secrets = (h.server_cert, (h.manager, tt));
  }

  routes_to_api_server :
      (t : Tenant)
      → (selects (api_server_service t).selector (api_server_spec c t).template.labels ≡ true)
        × (selects (api_server_service t).selector (controller_manager_spec t).template.labels
            ≡ false)
  unfolding api_server_spec controller_manager_spec api_server_service selects lookup string_eq
  routes_to_api_server t = (own_labels "kube-apiserver" t.object_meta.name, refl)

  -- When all four phases succeed for a tenant that had neither its Deployments nor its Service,
  -- the server holds all three. Each Deployment selects its own pods and runs the one program of
  -- its name; the container mounts volumes of the pod, and the secret of each volume is on the
  -- server. The Service selects the pods of the API server and not those of the controller
  -- manager. The code outside behaves as documented.
  pub provision-IsServed :
      (t : Tenant) (w : W)
      → IsUndeployed p lookup_in lawful t w
      → (provision p c t w).0 ≡ ok tt
      → IsServed t (provision p c t w).1
  provision-IsServed t w empty h =
      let there = (provision-Ensures p c lookup_in lawful t).after w tt h in
      let made = provision-IsDeployed p lookup_in lawful t c w empty h in
      let (d, d_held, d_spec) = made.api_server in
      let (s, s_held, s_spec) = made.service in
      let (m, m_held, m_spec) = made.manager in
      record {
        api_server = d;
        api_server_held = d_held;
        api_spec = _;
        api_specified = d_spec;
        api_starts = api_server-CanStart t _ there;
        manager = m;
        manager_held = m_held;
        manager_spec = _;
        manager_specified = m_spec;
        manager_starts = controller_manager-CanStart t _ there;
        service = s;
        service_held = s_held;
        service_spec = _;
        service_specified = s_spec;
        routed = (routes_to_api_server t).0;
        apart = (routes_to_api_server t).1;
      }
