-- ===== src/KubeConfig.antt =====
-- pkg/kubeconfig/kubeconfig.go.
pub mod Access
use multi_tenants.Base.{String, ◌<>◌, List, [], ◌∷◌, Call, pure, ◌>>=◌}
use multi_tenants.Api.{Bytes}
use multi_tenants.Secret.{Config, Certificate, Crypto}
use multi_tenants.Secret.Certs.{encode_cert_pem, encode_private_key_pem}
use multi_tenants.Secret.Certificates.{new_cert_and_key}

-- `api.Cluster`, `api.Context`, `api.AuthInfo` and `api.Config` of clientcmd.
pub record Cluster : Type 0 where
  pub server : String
  pub certificate_authority_data : Bytes

pub record Context : Type 0 where
  pub cluster : String
  pub auth_info : String

pub record AuthInfo : Type 0 where
  pub client_key_data : Bytes
  pub client_certificate_data : Bytes
  pub token : String

pub record ApiConfig : Type 0 where
  pub clusters : List (String × Cluster)
  pub contexts : List (String × Context)
  pub auth_infos : List (String × AuthInfo)
  pub current_context : String

-- `fmt.Sprintf("%s-%s", clusterName, config.CommonName)`
abbrev pub user_name : String → Config → String
user_name cluster_name config = cluster_name <> "-" <> config.common_name

-- `fmt.Sprintf("%s@%s", userName, clusterName)`
abbrev pub context_name : String → Config → String
context_name cluster_name config = user_name cluster_name config <> "@" <> cluster_name

module _ {W : Type 0} (c : Crypto W) where
  unfoldable pub new_with_secret :
      String → String → Certificate → c.Signer → Config → Call W ApiConfig
  new_with_secret cluster_name endpoint ca_cert ca_key config = do
    (cert, key) ← new_cert_and_key c ca_cert ca_key config
    pure (record {
      clusters =
          (
            cluster_name,
            record { server = endpoint; certificate_authority_data = encode_cert_pem c ca_cert },
          )
          ∷ [];
      contexts =
          (
            context_name cluster_name config,
            record { cluster = cluster_name; auth_info = user_name cluster_name config },
          )
          ∷ [];
      auth_infos =
          (
            user_name cluster_name config,
            record {
              client_key_data = encode_private_key_pem c key;
              client_certificate_data = encode_cert_pem c cert;
              token = "";
            },
          )
          ∷ [];
      current_context = context_name cluster_name config;
    })

  unfoldable pub new_with_token : String → String → Certificate → String → Config → ApiConfig
  new_with_token cluster_name endpoint ca_cert token config = record {
    clusters =
        (
          cluster_name,
          record { server = endpoint; certificate_authority_data = encode_cert_pem c ca_cert },
        )
        ∷ [];
    contexts =
        (
          context_name cluster_name config,
          record { cluster = cluster_name; auth_info = user_name cluster_name config },
        )
        ∷ [];
    auth_infos =
        (
          user_name cluster_name config,
          record { client_key_data = []; client_certificate_data = []; token = token },
        )
        ∷ [];
    current_context = context_name cluster_name config;
  }
