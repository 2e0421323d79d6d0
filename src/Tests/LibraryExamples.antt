-- ===== src/Tests/LibraryExamples.antt =====
-- The theorems on certificates, kubeconfigs and the helpers of the controller.
use multi_tenants.Base.{
  String, ◌≡◌, refl, Option, none, some, List, [], ◌∷◌, ok, Returns, ◌!=◌, option_eq, string_eq,
}
use multi_tenants.Api.{Kind, ObjectKey, ObjectKey_eq}
use multi_tenants.Secret.Certs.{
  encode_cert_pem, encode_private_key_pem, decode_cert_pem, decode_private_key_pem,
}
use multi_tenants.Secret.Certificates.{new_ca, new_cert_and_key}
use multi_tenants.Secret.Coding.{decode_cert_pem-encode, decode_private_key_pem-encode}
use multi_tenants.Secret.Issuing.{IsAuthority, IsLeaf, new_ca-IsAuthority, new_cert_and_key-IsLeaf}
use multi_tenants.KubeConfig.{new_with_secret}
use multi_tenants.KubeConfig.Access.{IsUsable, new_with_secret-IsUsable}
use multi_tenants.ControllerUtil.{update_if_exists}
use multi_tenants.ControllerUtil.Updating.{update_if_exists-frame}
use multi_tenants.ControllerUtil.Patch.{send_patches}
use multi_tenants.ControllerUtil.PatchTable.{expected_patches, send_patches_table}
use multi_tenants.Controllers.Normal.{host_namespace}
use multi_tenants.Tests.Machines.{test_machinery}
use multi_tenants.Tests.Server.{Host, read, test_client, test_client-IsLawfulClient}
use multi_tenants.Tests.Keys.{
  test_crypto, test_crypto-IsLawfulCrypto, test_ca, test_ca_parsed, test_key, admin_config,
}
use multi_tenants.Tests.Setting.{test_converter, acme, running, empty_host}

decode_cert_pem-encode_example :
    decode_cert_pem test_crypto (encode_cert_pem test_crypto test_ca) ≡ ok test_ca
decode_cert_pem-encode_example =
    decode_cert_pem-encode test_crypto test_crypto-IsLawfulCrypto (0 ∷ 2048 ∷ []) test_ca
      test_ca_parsed

decode_private_key_pem-encode_example :
    decode_private_key_pem test_crypto test_machinery (encode_private_key_pem test_crypto test_key)
    ≡ ok (test_crypto.signer test_key)
decode_private_key_pem-encode_example =
    decode_private_key_pem-encode test_crypto test_crypto-IsLawfulCrypto test_machinery test_key

new_ca-IsAuthority_example :
    Returns (λ x. IsAuthority test_crypto x.0) (new_ca test_crypto (some admin_config))
new_ca-IsAuthority_example =
    new_ca-IsAuthority test_crypto test_crypto-IsLawfulCrypto (some admin_config)

new_cert_and_key-IsLeaf_example :
    Returns
      (λ x. IsLeaf test_crypto admin_config x.0)
      (new_cert_and_key test_crypto test_ca (test_crypto.signer test_key) admin_config)
new_cert_and_key-IsLeaf_example =
    new_cert_and_key-IsLeaf test_crypto test_crypto-IsLawfulCrypto test_ca
      (test_crypto.signer test_key) admin_config

new_with_secret-IsUsable_example :
    Returns (IsUsable test_crypto test_machinery "https://10.0.0.1:6443" test_ca admin_config) (
      new_with_secret test_crypto "acme" "https://10.0.0.1:6443" test_ca
        (test_crypto.signer test_key)
        admin_config)
new_with_secret-IsUsable_example =
    new_with_secret-IsUsable test_crypto test_machinery test_crypto-IsLawfulCrypto "acme"
      "https://10.0.0.1:6443" test_ca (test_crypto.signer test_key) admin_config (0 ∷ 2048 ∷ [])
      test_ca_parsed

abbrev with_namespace : Host
with_namespace = record empty_host { namespaces = λ _. some (host_namespace acme) }

abbrev namespace_key : ObjectKey
namespace_key = test_client.object_key Kind.namespace (host_namespace acme)

namespace_is_no_secret : Kind.namespace ≡ Kind.secret → ⊥
namespace_is_no_secret e = cc

update_if_exists-frame_example :
    read Kind.secret namespace_key
      (update_if_exists test_client test_machinery Kind.namespace
        (host_namespace acme)
        (λ o w. (ok o, w))
        with_namespace).1
    ≡ read Kind.secret namespace_key with_namespace
update_if_exists-frame_example =
    update_if_exists-frame test_client test_machinery read test_client-IsLawfulClient Kind.namespace
      (λ o w. (ok o, w)) (host_namespace acme) Kind.secret namespace_key with_namespace
      (λ o x. refl) (λ e _. namespace_is_no_secret e)

abbrev phase_of : String → Option test_converter.Value
unfolding test_converter
phase_of s = some s

abbrev finalizers_of : List String → test_converter.Unstructured
unfolding test_converter
finalizers_of fs = ((record { namespace = ""; name = "acme" }, fs), none)

send_patches_table_example :
    send_patches test_client test_machinery test_converter Kind.tenant acme
      (finalizers_of [], phase_of "")
      running
      (finalizers_of ("tenancy.kcp.io/tenants" ∷ []), phase_of "Ready")
      empty_host
    ≡ expected_patches test_client test_machinery test_converter Kind.tenant
        (◌!=◌ ⦃e = test_converter.unstructured_eq⦄
          (finalizers_of [])
          (finalizers_of ("tenancy.kcp.io/tenants" ∷ [])))
        (◌!=◌ ⦃e = option_eq ⦃e = test_converter.value_eq⦄⦄ (phase_of "") (phase_of "Ready"))
        acme
        running
        (phase_of "Ready")
        empty_host
send_patches_table_example =
    send_patches_table test_client test_machinery test_converter Kind.tenant acme running
      (finalizers_of [], phase_of "")
      (finalizers_of ("tenancy.kcp.io/tenants" ∷ []), phase_of "Ready") empty_host
