-- ===== src/Secret/Certificates.antt =====
-- certificates.go: certificate authorities, signed certificates and key pairs.
use multi_tenants.Base.{
  ◌+◌, ◌-◌, ◌*◌, String, ◌<>◌, true, false, Option, none, some, [], ◌∷◌, ok, err, Error, message,
  error_text, Call, pure, throw, lift, attempt, ◌>>=◌,
}
use multi_tenants.Api.{Time}
use multi_tenants.Secret.Primitives.{
  key_encipherment, digital_signature, cert_sign, Config, Certificate, Crypto,
}
use multi_tenants.Secret.Certs.{new_private_key}

abbrev pub minute : Time
minute = 60_000_000_000

abbrev pub hour : Time
hour = 3_600_000_000_000

abbrev empty_config : Config
empty_config = record { common_name = ""; organization = []; dns_names = []; ips = []; usages = [] }

config_or_empty : Option Config → Config
config_or_empty none = empty_config
config_or_empty (some config) = config

-- `newSelfSignedCACert` writes these two fields of its argument.
unfoldable pub ca_config : Config → Config
ca_config config = record config { common_name = "ca"; organization = "kcp" ∷ [] }

unfoldable pub ca_template : Config → Time → Certificate
ca_template config now = record {
  serial_number = 0;
  common_name = config.common_name;
  organization = config.organization;
  dns_names = config.dns_names;
  ip_addresses = [];
  not_before = now - 5 * minute;
  not_after = now + hour * 24 * 365 * 10;
  key_usage = key_encipherment ∷ digital_signature ∷ cert_sign ∷ [];
  ext_key_usage = [];
  basic_constraints_valid = true;
  is_ca = true;
  max_path_len = 0;
  max_path_len_zero = true;
  raw = [];
}

unfoldable pub cert_template : Config → Time → Certificate
cert_template config now = record {
  serial_number = 0;
  common_name = config.common_name;
  organization = config.organization;
  dns_names = config.dns_names;
  ip_addresses = config.ips;
  not_before = now - 5 * minute;
  not_after = now + hour * 24 * 365 * 10;
  key_usage = key_encipherment ∷ digital_signature ∷ [];
  ext_key_usage = config.usages;
  basic_constraints_valid = true;
  is_ca = false;
  max_path_len = 0;
  max_path_len_zero = false;
  raw = [];
}

-- `fmt.Errorf(text + "%v", err)` around the error of a call.
unfoldable pub explain : {W A : Type 0} → String → Call W A → Call W A
explain text call =
    attempt call (elim [ ok a ↦ pure a | err e ↦ throw (message (text <> error_text e)) ])

module _ {W : Type 0} (c : Crypto W) where
  unfoldable pub time_now : Call W Time
  time_now w = let (t, w') = c.now w in (ok t, w')

  unfoldable pub new_self_signed_ca_cert : Config → c.Signer → Call W Certificate
  new_self_signed_ca_cert config key = do
    now ← time_now
    let template = ca_template (ca_config config) now
    b ← c.create_certificate template template (c.public key) key
    lift (c.parse_certificate b)

  -- A nil `config` is an empty one.
  unfoldable pub new_ca : Option Config → Call W (Certificate × c.RsaKey)
  unfolding new_self_signed_ca_cert new_private_key config_or_empty
  new_ca config = do
    key ← new_private_key c
    cert ← new_self_signed_ca_cert (config_or_empty config) (c.signer key)
    pure (cert, key)

  unfoldable pub new_signed_cert : Config → c.Signer → Certificate → c.Signer → Call W Certificate
  new_signed_cert config key ca_cert ca_key = do
    now ← time_now
    b ← c.create_certificate (cert_template config now) ca_cert (c.public key) ca_key
    lift (c.parse_certificate b)

  unfoldable pub new_cert_and_key :
      Certificate → c.Signer → Config → Call W (Certificate × c.RsaKey)
  unfolding new_signed_cert new_private_key
  new_cert_and_key ca_cert ca_key config = do
    key ← explain "unable to create private key " (new_private_key c)
    cert ←
        explain "unable to sign certificate. "
          (new_signed_cert config (c.signer key) ca_cert ca_key)
    pure (cert, key)

  abbrev pub public_error : Error
  public_error = message "unable to convert key public to *rsa.PublicKey"

  unfoldable pub new_pub_and_key : Call W (c.RsaPublicKey × c.RsaKey)
  unfolding new_private_key
  new_pub_and_key = do
    key ← explain "unable to create private key " (new_private_key c)
    elim (c.as_rsa_public (c.public (c.signer key))) [
      | none ↦ throw public_error
      | some p ↦ pure (p, key)
    ]
