-- ===== src/Controllers/Ownership.antt =====
-- Every object that the controller (pkg/controllers) sends in a create call lies in the tenant's
-- namespace and has the tenant as its one owner.
use multi_tenants.Base.{
  String, ◌≡◌, refl, Option, none, some, pure, throw, Keeps, Keeps-pure, Keeps-throw, Keeps-bind,
  keeps, [], ◌∷◌, Returns, Returns-bind, Returns-pure, lookup,
}
use multi_tenants.Api.{
  Bytes, Kind, Object, ObjectKey, ObjectMeta, Secret, Tenant, DeploymentSpec, meta_of,
  cluster_namespace_in_host,
}
use multi_tenants.Secret.{Config, Certificate}
use multi_tenants.Secret.Keeping.{
  CryptoKeeps, new_ca-Keeps, new_cert_and_key-Keeps, new_pub_and_key-Keeps,
}
use multi_tenants.KubeConfig.{new_with_secret}
use multi_tenants.ControllerUtil.{create_if_not_exists}
use multi_tenants.ControllerUtil.Creating.{create_if_not_exists-Keeps}
use multi_tenants.Controllers.Setup.{Platform, TenantController}
use multi_tenants.Controllers.Secrets.{
  new_secret, new_material, fill_server_cert, reconcile_secret, entry, missing, parse_ca_secret,
  fill_kube_config, create_kube_config, reconcile_kube_config,
}
use multi_tenants.Controllers.ApiServer.{
  new_deployment, new_service, fill_deployment, fill_service, reconcile_api_server,
}
use multi_tenants.Controllers.ControllerManager.{reconcile_controller_manager}
use multi_tenants.Controllers.Normal.{host_namespace, provision, ensure_namespace, check_ready}

-- The tenant's own part of the host cluster.
abbrev pub InScope : Tenant → Kind → ObjectMeta → Type 0
InScope t Kind.tenant o = ⊥
InScope t Kind.namespace o = (o.name ≡ cluster_namespace_in_host t) × (o.namespace ≡ "")
InScope t Kind.secret o = o.namespace ≡ cluster_namespace_in_host t
InScope t Kind.deployment o = o.namespace ≡ cluster_namespace_in_host t
InScope t Kind.service o = o.namespace ≡ cluster_namespace_in_host t

-- Its one owner is the tenant, by the version, kind, name and UID of its API object.
abbrev pub IsOwned : Tenant → (k : Kind) → Object k → Type 0
IsOwned t k o =
    InScope t k (meta_of k o)
    × ((meta_of k o).owner_references
        ≡ record {
          api_version = t.api_version;
          kind = t.kind;
          name = t.object_meta.name;
          uid = t.object_meta.uid;
        }
          ∷ [])

module _ {W : Type 0} (p : Platform W) (t : Tenant) where
  fill_server_cert-Returns :
      (c : TenantController) (name : String)
      → Returns (IsOwned t Kind.secret) (fill_server_cert p c t (new_secret t name))
  unfolding fill_server_cert
  fill_server_cert-Returns c name = Returns-bind _ _ (λ m. Returns-pure _ (refl, refl))

  fill_kube_config-Returns :
      (name file : String) (config : Config)
      → Returns (IsOwned t Kind.secret) (fill_kube_config p t file config (new_secret t name))
  unfolding fill_kube_config
  fill_kube_config-Returns name file config =
      Returns-bind _ _
        (λ ca. Returns-bind _ _ (λ k. Returns-bind _ _ (λ w. Returns-pure _ (refl, refl))))

  fill_deployment-Returns :
      (name : String) (spec : DeploymentSpec)
      → Returns (IsOwned t Kind.deployment) (fill_deployment p t spec (new_deployment t name))
  unfolding fill_deployment
  fill_deployment-Returns name spec = Returns-pure _ (refl, refl)

  fill_service-Returns :
      (name : String) → Returns (IsOwned t Kind.service) (fill_service p t (new_service t name))
  unfolding fill_service
  fill_service-Returns name = Returns-pure _ (refl, refl)

-- A property of the world that reads, keys, certificates and the creation of owned objects keep.
pub record OwnedKeeps {W : Type 0} (p : Platform W) (t : Tenant) (P : W → Type 0) : Type 0 where
  pub crypto : CryptoKeeps p.crypto P
  pub get : (k : Kind) (key : ObjectKey) → Keeps P (p.client.get k key)
  pub create : (k : Kind) (o : Object k) → IsOwned t k o → Keeps P (p.client.create k o)

-- The mutations of the secrets only read, and make keys and certificates.
module _ {W : Type 0} (p : Platform W) (t : Tenant) (P : W → Type 0)
    (crypto : CryptoKeeps p.crypto P)
    (get : (k : Kind) (key : ObjectKey) → Keeps P (p.client.get k key)) where
  entry-Keeps : (name : String) (s : Secret) → Keeps P (entry p name s)
  unfolding entry
  entry-Keeps name s = by_lookup (lookup name s.contents)
    where
      by_lookup :
          (o : Option Bytes)
          → Keeps {A = Bytes} P (elim o [ none ↦ throw (missing p name) | some b ↦ pure b ])
      by_lookup none = Keeps-throw _
      by_lookup (some b) = Keeps-pure b

  parse_ca_secret-Keeps : (ns name : String) → Keeps P (parse_ca_secret p ns name)
  unfolding parse_ca_secret
  parse_ca_secret-Keeps ns name = search (keeps, get, entry-Keeps) depth 14

  new_material-Keeps : Keeps P (new_material p t)
  unfolding new_material
  new_material-Keeps =
      search (keeps, new_ca-Keeps, new_cert_and_key-Keeps, new_pub_and_key-Keeps, crypto) depth 20

  pub fill_server_cert-Keeps :
      (c : TenantController) (o : Secret) → Keeps P (fill_server_cert p c t o)
  unfolding fill_server_cert
  fill_server_cert-Keeps c o = search (keeps, new_material-Keeps)

  new_with_secret-Keeps :
      (name url : String) (ca : Certificate) (s : p.crypto.Signer) (config : Config)
      → Keeps P (new_with_secret p.crypto name url ca s config)
  unfolding new_with_secret
  new_with_secret-Keeps name url ca s config = search (keeps, new_cert_and_key-Keeps, crypto)

  pub fill_kube_config-Keeps :
      (file : String) (config : Config) (o : Secret) → Keeps P (fill_kube_config p t file config o)
  unfolding fill_kube_config
  fill_kube_config-Keeps file config o =
      search (keeps, parse_ca_secret-Keeps, new_with_secret-Keeps) depth 12

module _ {W : Type 0} (p : Platform W) (t : Tenant) (P : W → Type 0) (h : OwnedKeeps p t P) where
  open h use {crypto, get, create}

  pub reconcile_secret-Keeps : (c : TenantController) → Keeps P (reconcile_secret p c t)
  unfolding reconcile_secret
  reconcile_secret-Keeps c =
      Keeps-bind _ _
        (create_if_not_exists-Keeps p.client p.machinery Kind.secret (fill_server_cert p c t) P
          (IsOwned t Kind.secret) _ (get Kind.secret) (fill_server_cert-Keeps p t P crypto get c)
          (fill_server_cert-Returns p t c _) (create Kind.secret))
        (λ _. Keeps-pure _)

  pub create_kube_config-Keeps :
      (name file : String) (config : Config) → Keeps P (create_kube_config p t name file config)
  unfolding create_kube_config
  create_kube_config-Keeps name file config =
      Keeps-bind _ _
        (create_if_not_exists-Keeps p.client p.machinery Kind.secret
          (fill_kube_config p t file config) P (IsOwned t Kind.secret) _ (get Kind.secret)
          (fill_kube_config-Keeps p t P crypto get file config)
          (fill_kube_config-Returns p t name file config) (create Kind.secret))
        (λ _. Keeps-pure _)

  pub reconcile_kube_config-Keeps : Keeps P (reconcile_kube_config p t)
  unfolding reconcile_kube_config
  reconcile_kube_config-Keeps = search (keeps, create_kube_config-Keeps)

  create_deployment-Keeps :
      (name : String) (spec : DeploymentSpec)
      → Keeps P (
          create_if_not_exists p.client p.machinery Kind.deployment
            (new_deployment t name)
            (fill_deployment p t spec))
  unfolding fill_deployment
  create_deployment-Keeps name spec =
      create_if_not_exists-Keeps p.client p.machinery Kind.deployment (fill_deployment p t spec) P
        (IsOwned t Kind.deployment) _ (get Kind.deployment) (λ o. Keeps-pure _)
        (fill_deployment-Returns p t name spec) (create Kind.deployment)

  pub create_service-Keeps :
      (name : String)
      → Keeps P (
          create_if_not_exists p.client p.machinery Kind.service
            (new_service t name)
            (fill_service p t))
  unfolding fill_service
  create_service-Keeps name =
      create_if_not_exists-Keeps p.client p.machinery Kind.service (fill_service p t) P
        (IsOwned t Kind.service) _ (get Kind.service) (λ o. Keeps-pure _)
        (fill_service-Returns p t name) (create Kind.service)

  pub reconcile_api_server-Keeps : (c : TenantController) → Keeps P (reconcile_api_server p c t)
  unfolding reconcile_api_server
  reconcile_api_server-Keeps c = search (keeps, create_deployment-Keeps, create_service-Keeps)

  pub reconcile_controller_manager-Keeps : Keeps P (reconcile_controller_manager p t)
  unfolding reconcile_controller_manager
  reconcile_controller_manager-Keeps = search (keeps, create_deployment-Keeps)

  pub provision-Keeps : (c : TenantController) → Keeps P (provision p c t)
  unfolding provision
  provision-Keeps c = search (
    keeps, reconcile_secret-Keeps, reconcile_kube_config-Keeps, reconcile_api_server-Keeps,
    reconcile_controller_manager-Keeps,
  )

  pub ensure_namespace-Keeps : (c : TenantController) → Keeps P (ensure_namespace p c t)
  unfolding ensure_namespace
  ensure_namespace-Keeps c =
      Keeps-bind _ _
        (create_if_not_exists-Keeps p.client p.machinery Kind.namespace pure P
          (IsOwned t Kind.namespace) (host_namespace t) (get Kind.namespace) (λ o. Keeps-pure o)
          (Returns-pure (host_namespace t) ((refl, refl), refl)) (create Kind.namespace))
        (λ _. Keeps-pure _)

  pub check_ready-Keeps : (c : TenantController) (u : Tenant) → Keeps P (check_ready p c u)
  unfolding check_ready
  check_ready-Keeps c u = search (keeps, get) depth 12
