-- ===== src/KubeConfig/Access.antt =====
-- What a client reads from the kubeconfigs that pkg/kubeconfig makes.
use multi_tenants.Base.{
  String, ◌≡◌, refl, Option, none, some, [], ◌∷◌, arith, lookup, ok, string_eq, Returns,
  Returns-bind_of, Returns-pure,
}
use multi_tenants.Api.{Bytes, Machinery}
use multi_tenants.Secret.{Config, Certificate, Crypto, IsLawfulCrypto}
use multi_tenants.Secret.Certs.{
  encode_cert_pem, encode_private_key_pem, decode_cert_pem, decode_private_key_pem,
}
use multi_tenants.Secret.Coding.{decode_cert_pem-encode, decode_private_key_pem-encode}
use multi_tenants.Secret.Issuing.{IsLeaf, IsKeyOf, new_cert_and_key-IsKeyOf}
use multi_tenants.KubeConfig.{
  Cluster, Context, AuthInfo, ApiConfig, user_name, context_name, new_with_secret, new_with_token,
}

-- The cluster and the user of the current context, as a client looks them up.
resolve_context : ApiConfig → Option Context → Option (Cluster × AuthInfo)
resolve_context config none = none
resolve_context config (some context) = elim (lookup context.cluster config.clusters) [
  | none ↦ none
  | some cluster ↦ elim (lookup context.auth_info config.auth_infos) [
    | none ↦ none
    | some user ↦ some (cluster, user)
  ]
]

unfoldable pub resolve : ApiConfig → Option (Cluster × AuthInfo)
unfolding resolve_context
resolve config = resolve_context config (lookup config.current_context config.contexts)

lookup_own : {V : Type 0} (k : String) (v : V) → lookup k ((k, v) ∷ []) ≡ some v
unfolding lookup
lookup_own k v = ground arith

resolve_single :
    (n u x : String) (cluster : Cluster) (user : AuthInfo)
    → resolve (record {
      clusters = (n, cluster) ∷ [];
      contexts = (x, record { cluster = n; auth_info = u }) ∷ [];
      auth_infos = (u, user) ∷ [];
      current_context = x;
    })
      ≡ some (cluster, user)
unfolding resolve resolve_context
resolve_single n u x cluster user =
    rw (resolve, lookup_own, resolve_context, lookup_own, lookup_own) refl

module _ {W : Type 0} (c : Crypto W) (m : Machinery) where
  -- A client of the config connects to `url`, trusts the certificate authority `ca`, and presents
  -- a certificate of the names and usages in `config` with a private key.
  pub record IsUsable (url : String) (ca : Certificate) (config : Config) (made : ApiConfig)
      : Type 0 where
    pub cluster : Cluster
    pub user : AuthInfo
    pub resolved : resolve made ≡ some (cluster, user)
    pub server : cluster.server ≡ url
    pub trusted : decode_cert_pem c cluster.certificate_authority_data ≡ ok ca
    pub leaf : Certificate
    pub presented : decode_cert_pem c user.client_certificate_data ≡ ok leaf
    pub issued : IsLeaf c config leaf
    pub key : c.RsaKey
    pub matched : IsKeyOf c leaf key
    pub key_held : decode_private_key_pem c m user.client_key_data ≡ ok (c.signer key)

  -- Whenever NewWithSecret succeeds, for an authority that was itself parsed, the current
  -- context of the config resolves to a cluster and a user: the given address, the given
  -- authority, and a leaf certificate of the names and usages asked for, with the private key
  -- that belongs to it. The code outside behaves as documented.
  pub new_with_secret-IsUsable :
      IsLawfulCrypto c
      → (name url : String) (ca : Certificate) (s : c.Signer) (config : Config) (b : Bytes)
      → c.parse_certificate b ≡ ok ca
      → Returns (IsUsable url ca config) (new_with_secret c name url ca s config)
  unfolding new_with_secret
  new_with_secret-IsUsable lawful name url ca s config b parsed =
      Returns-bind_of (λ x. IsLeaf c config x.0 × IsKeyOf c x.0 x.1) _ _
        (new_cert_and_key-IsKeyOf c lawful ca s config)
        (λ x h. Returns-pure _ (record {
          cluster = record { server = url; certificate_authority_data = encode_cert_pem c ca };
          user = record {
            client_key_data = encode_private_key_pem c x.1;
            client_certificate_data = encode_cert_pem c x.0;
            token = "";
          };
          resolved = resolve_single name (user_name name config) (context_name name config) _ _;
          server = refl;
          trusted = decode_cert_pem-encode c lawful b ca parsed;
          leaf = x.0;
          presented = decode_cert_pem-encode c lawful h.0.readable.0 x.0 h.0.readable.1;
          issued = h.0;
          matched = h.1;
          key = x.1;
          key_held = decode_private_key_pem-encode c lawful m x.1;
        }))

  -- The current context of a config made from a token resolves to the given address and
  -- authority and to that token alone.
  new_with_token-resolve :
      (name url : String) (ca : Certificate) (token : String) (config : Config)
      → resolve (new_with_token c name url ca token config)
        ≡ some (
          record { server = url; certificate_authority_data = encode_cert_pem c ca },
          record { client_key_data = []; client_certificate_data = []; token = token },
        )
  unfolding new_with_token
  new_with_token-resolve name url ca token config =
      resolve_single name (user_name name config) (context_name name config) _ _
