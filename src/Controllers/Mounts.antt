-- ===== src/Controllers/Mounts.antt =====
-- What the containers of a tenant's control plane find in the secrets that are filled in for them
-- (tenant_controller_phase.go).
use Prim.Native.String.append
use multi_tenants.Base.{
  String, string_differs, ◌<>◌, ◌≡◌, refl, ◌∙◌, ap, some, List, [], ◌∷◌, nat_eq, string_eq, lookup,
}
use multi_tenants.Api.{Bytes, Tenant}
use multi_tenants.Controllers.Setup.{Platform, TenantController}
use multi_tenants.Controllers.Secrets.{Material, server_cert_contents}
use multi_tenants.Controllers.ApiServer.{api_server_container}
use multi_tenants.Controllers.ControllerManager.{controller_manager_container}
use multi_tenants.Controllers.Files.{
  after_equals, file_in, HasEntry, Names, FindsFiles, IsOutside, after_equals-append,
  HasEntry-insert_self, HasEntry-insert, HasEntry-source,
}

-- Where both deployments mount the certificates.
abbrev pub pki : String
pki = "/etc/kubernetes/pki"

-- The etcd secret of the manager has the files by which an API server reaches etcd.
pub record HasEtcdFiles (etcd : List (String × Bytes)) : Type 0 where
  pub ca : HasEntry "etcd-ca.crt" etcd
  pub crt : HasEntry "apiserver-etcd-client.crt" etcd
  pub key : HasEntry "apiserver-etcd-client.key" etcd

module _ {W : Type 0} (p : Platform W) where
  module _ (etcd : List (String × Bytes)) (x : Material p) where
    abbrev contents : List (String × Bytes)
    contents = server_cert_contents p etcd x

    -- What the etcd secret has stays.
    etcd_entry : (name : String) → HasEntry name etcd → HasEntry name contents
    unfolding server_cert_contents
    etcd_entry name h = search (HasEntry-insert, HasEntry-source name etcd [] h) depth 20

    -- What the tenant's own part of the contents has.
    record HasOwnFiles : Type 0 where
      ca_crt : HasEntry "ca.crt" contents
      ca_key : HasEntry "ca.key" contents
      api_server_crt : HasEntry "apiserver.crt" contents
      api_server_key : HasEntry "apiserver.key" contents
      kubelet_crt : HasEntry "apiserver-kubelet-client.crt" contents
      kubelet_key : HasEntry "apiserver-kubelet-client.key" contents
      front_ca_crt : HasEntry "front-proxy-ca.crt" contents
      front_crt : HasEntry "front-proxy-client.crt" contents
      front_key : HasEntry "front-proxy-client.key" contents
      sa_pub : HasEntry "sa.pub" contents
      sa_key : HasEntry "sa.key" contents

    own_files : HasOwnFiles
    unfolding server_cert_contents
    own_files = record {
      ca_crt = search (HasEntry-insert_self, HasEntry-insert) depth 20;
      ca_key = search (HasEntry-insert_self, HasEntry-insert) depth 20;
      api_server_crt = search (HasEntry-insert_self, HasEntry-insert) depth 20;
      api_server_key = search (HasEntry-insert_self, HasEntry-insert) depth 20;
      kubelet_crt = search (HasEntry-insert_self, HasEntry-insert) depth 20;
      kubelet_key = search (HasEntry-insert_self, HasEntry-insert) depth 20;
      front_ca_crt = search (HasEntry-insert_self, HasEntry-insert) depth 20;
      front_crt = search (HasEntry-insert_self, HasEntry-insert) depth 20;
      front_key = search (HasEntry-insert_self, HasEntry-insert) depth 20;
      sa_pub = search (HasEntry-insert_self, HasEntry-insert) depth 20;
      sa_key = search (HasEntry-insert_self) depth 20;
    }

    Names-outside :
        (directory option value : String)
        → after_equals option ≡ some value
        → IsOutside directory value
        → Names contents (file_in directory option)
    unfolding file_in
    Names-outside directory option value e outside = rw (file_in, e, outside) tt

    open own_files use {
      ca_crt, ca_key, api_server_crt, api_server_key, kubelet_crt, kubelet_key, front_ca_crt,
      front_crt, front_key, sa_pub, sa_key,
    }

    module _ (c : TenantController) (t : Tenant) (h : HasEtcdFiles etcd)
        (servers : IsOutside pki c.etcd_servers)
        (elsewhere : IsOutside pki ("/" <> t.object_meta.name <> "/registry")) where
      Names-no_server : Names contents (file_in pki ("--etcd-servers=" <> c.etcd_servers))
      unfolding nat_eq after_equals
      Names-no_server =
          Names-outside pki ("--etcd-servers=" <> c.etcd_servers) c.etcd_servers
            (after_equals-append "--etcd-servers=" c.etcd_servers "" refl
              ∙ ap some (append.nil c.etcd_servers))
            servers

      Names-no_prefix :
          Names contents (file_in pki ("--etcd-prefix=/" <> t.object_meta.name <> "/registry"))
      unfolding nat_eq after_equals
      Names-no_prefix =
          Names-outside pki ("--etcd-prefix=/" <> t.object_meta.name <> "/registry")
            ("/" <> t.object_meta.name <> "/registry")
            (after_equals-append "--etcd-prefix=/" (t.object_meta.name <> "/registry") "/" refl)
            elsewhere

      -- Each container finds the files.
      pub api_server_finds : FindsFiles "server-cert" contents (api_server_container c t)
      unfolding api_server_container file_in nat_eq
      api_server_finds = (
        λ _.
            search
              (
                ca_crt,
                api_server_crt,
                api_server_key,
                kubelet_crt,
                kubelet_key,
                front_ca_crt,
                front_crt,
                front_key,
                sa_pub,
                sa_key,
                etcd_entry "etcd-ca.crt" h.ca,
                etcd_entry "apiserver-etcd-client.crt" h.crt,
                etcd_entry "apiserver-etcd-client.key" h.key,
                Names-no_server,
                Names-no_prefix,
              )
              depth 80,
        tt,
      )

      pub controller_manager_finds : FindsFiles "server-cert" contents controller_manager_container
      unfolding controller_manager_container file_in nat_eq string_eq
      controller_manager_finds = (
        λ _. search (ca_crt, ca_key, front_ca_crt, sa_key) depth 80,
        (λ e. absurd (string_differs "kubeconfig" "server-cert" refl e), tt),
      )

module _ (b : Bytes) where
  abbrev kube_config : List (String × Bytes)
  kube_config = ("controller-manager.conf", b) ∷ []

  named_file : HasEntry "controller-manager.conf" kube_config
  unfolding lookup string_eq
  named_file = (b, refl)

  -- The mount of the kubeconfig has the one file that the controller manager reads there.
  pub kube_config_finds : FindsFiles "kubeconfig" kube_config controller_manager_container
  unfolding controller_manager_container file_in nat_eq string_eq
  kube_config_finds = (
    λ e. absurd (string_differs "server-cert" "kubeconfig" refl e),
    (λ _. search (named_file) depth 80, tt),
  )
