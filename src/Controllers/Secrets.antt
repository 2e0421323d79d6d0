-- ===== src/Controllers/Secrets.antt =====
-- `reconcileSecret`, `reconcileKubeConfig` and `parseCASecret` of tenant_controller_phase.go.
use multi_tenants.Base.{
  String, ◌<>◌, none, some, List, [], ◌∷◌, Error, message, Call, pure, throw, lift, ◌>>=◌, ◌>>◌,
  lookup, insert, insert_all,
}
use multi_tenants.Api.{Bytes, Kind, Secret, Tenant, cluster_namespace_in_host}
use multi_tenants.Secret.{Config, Certificate, server_auth, client_auth}
use multi_tenants.Secret.Certs.{
  encode_cert_pem, encode_private_key_pem, encode_public_key_pem, decode_cert_pem,
  decode_private_key_pem,
}
use multi_tenants.Secret.Certificates.{new_ca, new_cert_and_key, new_pub_and_key}
use multi_tenants.KubeConfig.{new_with_secret}
use multi_tenants.ControllerUtil.{MutateFn, create_if_not_exists}
use multi_tenants.Controllers.Setup.{Platform, TenantController, meta_in_host, owned}

abbrev pub new_secret : Tenant → String → Secret
new_secret t name = record { object_meta = meta_in_host t name; type = ""; contents = [] }

-- The certificates and keys of the server-cert secret.
pub record Material {W : Type 0} (p : Platform W) : Type 0 where
  pub server_ca : Certificate
  pub server_ca_key : p.crypto.RsaKey
  pub server_cert : Certificate
  pub server_key : p.crypto.RsaKey
  pub kubelet_cert : Certificate
  pub kubelet_key : p.crypto.RsaKey
  pub front_ca : Certificate
  pub front_ca_key : p.crypto.RsaKey
  pub front_cert : Certificate
  pub front_key : p.crypto.RsaKey
  pub encoded_pub : Bytes
  pub pub_key : p.crypto.RsaKey

module _ {W : Type 0} (p : Platform W) where
  open p use {client, machinery, crypto, write_config}

  abbrev pub server_config : Tenant → Config
  server_config t = record {
    common_name = "kube-apiserver";
    organization = [];
    dns_names = ("kube-apiserver." <> t.object_meta.name <> ".svc") ∷ "localhost" ∷ [];
    ips = crypto.parse_ip "127.0.0.1" ∷ [];
    usages = server_auth ∷ [];
  }

  abbrev pub client_config : String → List String → Config
  client_config common_name organization = record {
    common_name = common_name;
    organization = organization;
    dns_names = [];
    ips = [];
    usages = client_auth ∷ [];
  }

  abbrev pub front_ca_config : Config
  front_ca_config = record {
    common_name = "";
    organization = [];
    dns_names = "front-proxy-ca" ∷ [];
    ips = [];
    usages = [];
  }

  -- The map that becomes the secret's data: the etcd entries, then the twelve of the tenant.
  unfoldable pub server_cert_contents : List (String × Bytes) → Material p → List (String × Bytes)
  server_cert_contents etcd_secret x =
      let cert = encode_cert_pem crypto in
      let key = encode_private_key_pem crypto in
      insert "sa.key" (key x.pub_key) (
        insert "sa.pub" x.encoded_pub (
          insert "front-proxy-client.key" (key x.front_key) (
            insert "front-proxy-client.crt" (cert x.front_cert) (
              insert "front-proxy-ca.key" (key x.front_ca_key) (
                insert "front-proxy-ca.crt" (cert x.front_ca) (
                  insert "apiserver-kubelet-client.key" (key x.kubelet_key) (
                    insert "apiserver-kubelet-client.crt" (cert x.kubelet_cert) (
                      insert "apiserver.key" (key x.server_key) (
                        insert "apiserver.crt" (cert x.server_cert) (
                          insert "ca.key" (key x.server_ca_key) (
                            insert "ca.crt" (cert x.server_ca)
                              (insert_all etcd_secret []))))))))))))

  unfoldable pub new_material : Tenant → Call W (Material p)
  new_material t = do
    (ca, ca_key) ← new_ca crypto none
    (server, server_key) ← new_cert_and_key crypto ca (crypto.signer ca_key) (server_config t)
    (kubelet, kubelet_key) ←
        new_cert_and_key crypto ca (crypto.signer ca_key)
          (client_config "kube-apiserver-kubelet-client" ("system:masters" ∷ []))
    (front_ca, front_ca_key) ← new_ca crypto (some front_ca_config)
    (front, front_key) ←
        new_cert_and_key crypto front_ca (crypto.signer front_ca_key)
          (client_config "front-proxy-client" [])
    (public, pub_key) ← new_pub_and_key crypto
    encoded ← lift (encode_public_key_pem crypto public)
    pure (record {
      server_ca = ca;
      server_ca_key = ca_key;
      server_cert = server;
      server_key = server_key;
      kubelet_cert = kubelet;
      kubelet_key = kubelet_key;
      front_ca = front_ca;
      front_ca_key = front_ca_key;
      front_cert = front;
      front_key = front_key;
      encoded_pub = encoded;
      pub_key = pub_key;
    })

  unfoldable pub fill_server_cert : TenantController → Tenant → MutateFn W Kind.secret
  fill_server_cert c t obj = do
    material ← new_material t
    pure (record obj {
      object_meta = owned t obj.object_meta;
      type = "kcp/kube-secret";
      contents = server_cert_contents c.etcd_secret material;
    })

  unfoldable pub reconcile_secret : TenantController → Tenant → Call W (Unit {0})
  reconcile_secret c t = do
    _ ←
        create_if_not_exists client machinery Kind.secret (new_secret t "server-cert")
          (fill_server_cert c t)
    pure tt

  abbrev pub missing : String → Error
  missing name = message ("empty " <> name)

  unfoldable pub entry : String → Secret → Call W Bytes
  entry name s = elim (lookup name s.contents) [ none ↦ throw (missing name) | some b ↦ pure b ]

  unfoldable pub parse_ca_secret : String → String → Call W (Certificate × crypto.Signer)
  parse_ca_secret namespace name = do
    secret ← client.get Kind.secret (record { namespace = namespace; name = name })
    ca ← entry "ca.crt" secret
    ca_cert ← lift (decode_cert_pem crypto ca)
    key ← entry "ca.key" secret
    ca_key ← lift (decode_private_key_pem crypto machinery key)
    pure (ca_cert, ca_key)

  abbrev pub endpoint : Tenant → String
  endpoint t = "https://kube-apiserver." <> t.object_meta.name <> ".svc:6443"

  -- The two mutations of `reconcileKubeConfig`, which differ in the file and the certificate.
  unfoldable pub fill_kube_config : Tenant → String → Config → MutateFn W Kind.secret
  fill_kube_config t file config obj = do
    (ca_cert, ca_key) ← parse_ca_secret (cluster_namespace_in_host t) "server-cert"
    kube_config ← new_with_secret crypto t.object_meta.name (endpoint t) ca_cert ca_key config
    written ← lift (write_config kube_config)
    pure (record obj {
      object_meta = owned t obj.object_meta;
      type = "kcp/kubeconfig";
      contents = (file, written) ∷ [];
    })

  unfoldable pub create_kube_config : Tenant → String → String → Config → Call W (Unit {0})
  create_kube_config t name file config = do
    _ ←
        create_if_not_exists client machinery Kind.secret (new_secret t name)
          (fill_kube_config t file config)
    pure tt

  unfoldable pub reconcile_kube_config : Tenant → Call W (Unit {0})
  reconcile_kube_config t = do
    create_kube_config t "kubeconfig-admin" "admin.conf"
        (client_config "kubernetes-admin" ("system:masters" ∷ []))
    create_kube_config t "kubeconfig-controller-manager" "controller-manager.conf"
        (client_config "system:kube-controller-manager" [])
