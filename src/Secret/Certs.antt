-- ===== src/Secret/Certs.antt =====
-- certs.go: keys, and the PEM forms of keys and certificates.
use multi_tenants.Base.{ℕ, none, some, [], ◌∷◌, Result, ok, err, Error, message, Call}
use multi_tenants.Api.{Bytes, Machinery}
use multi_tenants.Secret.Primitives.{Certificate, Crypto}

abbrev pub default_rsa_key_size : ℕ
default_rsa_key_size = 2048

module _ {W : Type 0} (c : Crypto W) where
  unfoldable pub new_private_key : Call W c.RsaKey
  new_private_key = c.generate_key default_rsa_key_size

  unfoldable pub encode_cert_pem : Certificate → Bytes
  encode_cert_pem cert = c.encode_to_memory (record { type = "CERTIFICATE"; bytes = cert.raw })

  unfoldable pub encode_private_key_pem : c.RsaKey → Bytes
  encode_private_key_pem key =
      c.encode_to_memory (record { type = "RSA PRIVATE KEY"; bytes = c.marshal_pkcs1 key })

  unfoldable pub encode_public_key_pem : c.RsaPublicKey → Result Bytes
  encode_public_key_pem key = elim (c.marshal_pkix key) [
    | err e ↦ err e
    | ok der ↦ ok (c.encode_to_memory (record { type = "PUBLIC KEY"; bytes = der }))
  ]

  abbrev pub pem_error : Error
  pem_error = message "unable to decode PEM data"

  unfoldable pub decode_cert_pem : Bytes → Result Certificate
  decode_cert_pem encoded = elim (c.pem_decode encoded) [
    | none ↦ err pem_error
    | some block ↦ c.parse_certificate block.bytes
  ]

  abbrev pub signer_error : Error
  signer_error = message "x509: certificate private key does not implement crypto.Signer"

  module _ (m : Machinery) where
    -- The three attempts on the bytes of a block.
    unfoldable pub decode_key_bytes : Bytes → Result c.Signer
    decode_key_bytes bytes = elim (c.parse_pkcs1 bytes) [
      | ok key ↦ ok (c.signer key)
      | err pkcs1_err ↦ elim (c.parse_pkcs8 bytes) [
        | ok key ↦ elim (c.as_signer key) [ none ↦ err signer_error | some s ↦ ok s ]
        | err pkcs8_err ↦ elim (c.parse_ec bytes) [
          | ok s ↦ ok s
          | err ec_err ↦ err (m.new_aggregate (some pkcs1_err ∷ some pkcs8_err ∷ []) ec_err)
        ]
      ]
    ]

    unfoldable pub decode_private_key_pem : Bytes → Result c.Signer
    unfolding decode_key_bytes
    decode_private_key_pem encoded = elim (c.pem_decode encoded) [
      | none ↦ err pem_error
      | some block ↦ decode_key_bytes block.bytes
    ]
