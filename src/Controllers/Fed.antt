-- ===== src/Controllers/Fed.antt =====
-- Where the containers of a tenant's control plane (tenant_controller_phase.go) find the files that
-- their command lines name.
use multi_tenants.Base.{String, List, All, [], ◌∷◌, ◌≡◌, refl, some, string_eq, nat_eq}
use multi_tenants.Api.{
  Kind, Secret, Deployment, DeploymentSpec, Container, Volume, VolumeMount, Tenant,
}
use multi_tenants.Client.Server.{Lookup}
use multi_tenants.Controllers.Setup.{Platform, TenantController}
use multi_tenants.Controllers.ApiServer.{api_server_container, api_server_spec}
use multi_tenants.Controllers.ControllerManager.{
  controller_manager_container, controller_manager_spec,
}
use multi_tenants.Controllers.Footprint.{IsLawfulPlatform}
use multi_tenants.Controllers.Readiness.{key_in_host}
use multi_tenants.Controllers.Files.{file_in, volume_secret, Names, FindsFiles}
use multi_tenants.Controllers.Deployed.{Deploys}

module _ {W : Type 0} (p : Platform W) (lookup : Lookup W) (lawful : IsLawfulPlatform p lookup)
    (t : Tenant) where
  -- The mount is of a volume of the pod, whose secret is there, with an entry for each file
  -- that an option of the container's command names in the directory of the mount.
  pub record Finds (volumes : List Volume) (x : Container) (m : VolumeMount) (w : W) : Type 0 where
    pub source : String
    pub volume : volume_secret m.name volumes ≡ some source
    pub secret : Secret
    pub held : lookup Kind.secret (key_in_host t source) w ≡ some secret
    pub files : All (λ option. Names secret.contents (file_in m.mount_path option)) x.command

  -- The server holds a Deployment whose one container runs the program and finds its files.
  pub record IsFed (name : String) (w : W) : Type 0 where
    pub deployment : Deployment
    pub deployment_held : lookup Kind.deployment (key_in_host t name) w ≡ some deployment
    pub spec : DeploymentSpec
    pub specified : deployment.spec ≡ some spec
    pub container : Container
    pub alone : spec.template.containers ≡ container ∷ []
    pub arguments : List String
    pub command : container.command ≡ name ∷ arguments
    pub finds : All (λ m. Finds spec.template.volumes container m w) container.volume_mounts

  pub api_server-IsFed :
      (c : TenantController) (w : W) (cert : Secret)
      → Deploys p lookup lawful t "kube-apiserver" (api_server_spec c t) w
      → lookup Kind.secret (key_in_host t "server-cert") w ≡ some cert
      → FindsFiles "server-cert" cert.contents (api_server_container c t)
      → IsFed "kube-apiserver" w
  unfolding api_server_spec api_server_container volume_secret string_eq
  api_server-IsFed c w cert (d, d_held, d_spec) held finds = record {
    deployment = d;
    deployment_held = d_held;
    spec = api_server_spec c t;
    specified = d_spec;
    container = api_server_container c t;
    alone = refl;
    arguments = _;
    command = refl;
    finds = (
      record {
        source = "server-cert";
        volume = refl;
        secret = cert;
        held = held;
        files = finds.0 refl;
      },
      tt,
    );
  }

  pub manager-IsFed :
      (w : W) (cert config : Secret)
      → Deploys p lookup lawful t "kube-controller-manager" (controller_manager_spec t) w
      → lookup Kind.secret (key_in_host t "server-cert") w ≡ some cert
      → FindsFiles "server-cert" cert.contents controller_manager_container
      → lookup Kind.secret (key_in_host t "kubeconfig-controller-manager") w ≡ some config
      → FindsFiles "kubeconfig" config.contents controller_manager_container
      → IsFed "kube-controller-manager" w
  unfolding controller_manager_spec controller_manager_container volume_secret string_eq
  manager-IsFed w cert config (d, d_held, d_spec) held finds held' finds' = record {
    deployment = d;
    deployment_held = d_held;
    spec = controller_manager_spec t;
    specified = d_spec;
    container = controller_manager_container;
    alone = refl;
    arguments = _;
    command = refl;
    finds = (
      record {
        source = "server-cert";
        volume = refl;
        secret = cert;
        held = held;
        files = finds.0 refl;
      },
      (
        record {
          source = "kubeconfig-controller-manager";
          volume = refl;
          secret = config;
          held = held';
          files = finds'.1.0 refl;
        },
        tt,
      ),
    );
  }
