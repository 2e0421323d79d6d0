-- ===== src/Secret/Coding.antt =====
-- What certs.go encodes it decodes again.
use multi_tenants.Base.{◌≡◌, refl, ap, ◌∙◌, ok}
use multi_tenants.Api.{Bytes, Machinery}
use multi_tenants.Secret.Primitives.{Certificate, Crypto, IsLawfulCrypto}
use multi_tenants.Secret.Certs.{
  encode_cert_pem, encode_private_key_pem, decode_cert_pem, decode_key_bytes,
  decode_private_key_pem,
}

module _ {W : Type 0} (c : Crypto W) (lawful : IsLawfulCrypto c) where
  open lawful use {decode-certificate, decode-private_key, parse-marshal, parse-raw}

  -- A certificate that was parsed from any bytes comes back whole from its PEM form. The code
  -- outside behaves as documented.
  pub decode_cert_pem-encode :
      (b : Bytes) (x : Certificate)
      → c.parse_certificate b ≡ ok x
      → decode_cert_pem c (encode_cert_pem c x) ≡ ok x
  unfolding decode_cert_pem encode_cert_pem
  decode_cert_pem-encode b x parsed =
      rw (decode_cert_pem, encode_cert_pem, decode-certificate)
        (ap c.parse_certificate (parse-raw b x parsed) ∙ parsed)

  -- The PEM form of an RSA key is decoded to the signer of that key. The code outside behaves as
  -- documented.
  pub decode_private_key_pem-encode :
      (m : Machinery) (key : c.RsaKey)
      → decode_private_key_pem c m (encode_private_key_pem c key) ≡ ok (c.signer key)
  unfolding decode_private_key_pem encode_private_key_pem decode_key_bytes
  decode_private_key_pem-encode m key =
      rw
        (
          decode_private_key_pem, encode_private_key_pem, decode-private_key, decode_key_bytes,
          parse-marshal,
        )
        refl
