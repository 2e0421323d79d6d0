-- ===== src/Secret/Issuing.antt =====
-- What the certificates say that certificates.go issues.
use multi_tenants.Base.{
  ℕ, ◌>>=◌, pure, throw, message, error_text, ◌<>◌, ◌+◌, ◌-◌, ◌%◌, String, true, false, ◌≡◌, refl,
  ◌∙◌, Option, [], ◌∷◌, Result, ok, err, Call, lift, attempt, Returns, Returns-bind,
  Returns-bind_of, Returns-pure,
}
use multi_tenants.Api.{Bytes, Time}
use multi_tenants.Secret.Primitives.{
  Config, Certificate, Crypto, IsLawfulCrypto, SameContents, cert_sign, key_encipherment,
  digital_signature,
}
use multi_tenants.Secret.Certificates.{
  ca_config, ca_template, cert_template, explain, new_self_signed_ca_cert, new_ca, new_signed_cert,
  new_cert_and_key,
}

-- Five minutes and ten years, in nanoseconds.
abbrev backdating : ℕ
backdating = 300_000_000_000

abbrev lifetime : ℕ
lifetime = 315_360_000_000_000_000

abbrev whole_seconds : Time → Time
whole_seconds t = t - t % 1_000_000_000

-- Valid from five minutes before some reading of the clock to ten years after it.
abbrev pub IsValidFrom : Time → Certificate → Type 0
IsValidFrom now x =
    (x.not_before ≡ whole_seconds (now - backdating))
    × (x.not_after ≡ whole_seconds (now + lifetime))

-- A certificate authority under the one name that is given to all of them.
pub record IsAuthority {W : Type 0} (c : Crypto W) (x : Certificate) : Type 0 where
  pub is_ca : x.is_ca ≡ true
  pub common_name : x.common_name ≡ "ca"
  pub organization : x.organization ≡ "kcp" ∷ []
  pub key_usage : x.key_usage ≡ key_encipherment ∷ digital_signature ∷ cert_sign ∷ []
  pub serial_number : x.serial_number ≡ 0
  pub clock : (now : Time) × IsValidFrom now x
  pub readable : (b : Bytes) × (c.parse_certificate b ≡ ok x)

-- The key belongs to the certificate: its public half is the one that the certificate certifies.
abbrev pub IsKeyOf : {W : Type 0} (c : Crypto W) → Certificate → c.RsaKey → Type 0
IsKeyOf c x key = c.certified_key x ≡ c.public (c.signer key)

-- A leaf certificate of the names and usages that were asked for, which cannot sign others.
pub record IsLeaf {W : Type 0} (c : Crypto W) (config : Config) (x : Certificate) : Type 0 where
  pub is_ca : x.is_ca ≡ false
  pub common_name : x.common_name ≡ config.common_name
  pub organization : x.organization ≡ config.organization
  pub dns_names : x.dns_names ≡ config.dns_names
  pub ext_key_usage : x.ext_key_usage ≡ config.usages
  pub key_usage : x.key_usage ≡ key_encipherment ∷ digital_signature ∷ []
  pub serial_number : x.serial_number ≡ 0
  pub clock : (now : Time) × IsValidFrom now x
  pub readable : (b : Bytes) × (c.parse_certificate b ≡ ok x)

module _ {W : Type 0} (c : Crypto W) (lawful : IsLawfulCrypto c) where
  -- Created from the template, and parsed.
  Issued : Certificate → c.PublicKey → Certificate → Type 0
  Issued template k x =
      (SameContents template x × (c.certified_key x ≡ k))
      × ((b : Bytes) × (c.parse_certificate b ≡ ok x))

  parse-Returns :
      (template parent : Certificate) (k : c.PublicKey) (s : c.Signer)
      → Returns
          (Issued template k)
          (c.create_certificate template parent k s >>= λ b. lift (c.parse_certificate b))
  unfolding Issued lift
  parse-Returns template parent k s =
      Returns-bind_of (λ b. (w : W) × ((c.create_certificate template parent k s w).0 ≡ ok b)) _ _
        (record { result = λ w b e. (w, e) })
        (λ b (w, e). record {
          result =
              λ w' x parsed. (lawful.parse-create template parent k s w b x e parsed, (b, parsed));
        })

  ca-IsAuthority :
      (config : Config) (now : Time) (k : c.PublicKey) (x : Certificate)
      → Issued (ca_template (ca_config config) now) k x
      → IsAuthority c x × (c.certified_key x ≡ k)
  unfolding Issued ca_template ca_config
  ca-IsAuthority config now k x ((same, certified), parsed) = (
    record {
      is_ca = same.is_ca;
      common_name = same.common_name;
      organization = same.organization;
      key_usage = same.key_usage;
      serial_number = same.serial_number;
      clock = (now, (same.not_before, same.not_after));
      readable = parsed;
    },
    certified,
  )

  leaf-IsLeaf :
      (config : Config) (now : Time) (k : c.PublicKey) (x : Certificate)
      → Issued (cert_template config now) k x
      → IsLeaf c config x × (c.certified_key x ≡ k)
  unfolding Issued cert_template
  leaf-IsLeaf config now k x ((same, certified), parsed) = (
    record {
      is_ca = same.is_ca;
      common_name = same.common_name;
      organization = same.organization;
      dns_names = same.dns_names;
      ext_key_usage = same.ext_key_usage;
      key_usage = same.key_usage;
      serial_number = same.serial_number;
      clock = (now, (same.not_before, same.not_after));
      readable = parsed;
    },
    certified,
  )

  Returns-weaken :
      {A : Type 0} (P Q : A → Type 0) (m : Call W A)
      → ((a : A) → P a → Q a)
      → Returns P m
      → Returns Q m
  Returns-weaken P Q m h r = record { result = λ w a e. h a (r.result w a e) }

  explain-Returns :
      {A : Type 0} (Q : A → Type 0) (text : String) (m : Call W A)
      → Returns Q m
      → Returns Q (explain text m)
  unfolding explain attempt pure throw
  explain-Returns {A} Q text m r = record { result = λ w a e. by_result w a (m w).0 refl e }
    where
      by_result :
          (w : W) (a : A) (o : Result A)
          → (m w).0 ≡ o
          → ((elim o as (λ _. Call W A) [
            | ok a ↦ pure a
            | err x ↦ throw (message (text <> error_text x))
          ])
              (m w).1).0
            ≡ ok a
          → Q a
      by_result w a (ok b) e q = r.result w a (e ∙ q)
      by_result w a (err x) e q = cc

  pub new_ca-IsKeyOf :
      (config : Option Config)
      → Returns (λ x. IsAuthority c x.0 × IsKeyOf c x.0 x.1) (new_ca c config)
  unfolding new_ca new_self_signed_ca_cert
  new_ca-IsKeyOf config = Returns-bind _ _ (λ key.
      Returns-bind_of (λ x. IsAuthority c x × IsKeyOf c x key) _ _
        (Returns-bind _ _
          (λ now. Returns-weaken _ _ _ (ca-IsAuthority _ now _) (parse-Returns _ _ _ _)))
        (λ x h. Returns-pure _ h))

  -- Whatever configuration NewCA is given, what it issues is a certificate authority named "ca"
  -- of the organization "kcp", with serial number 0 and valid for ten years. The code outside
  -- behaves as documented.
  pub new_ca-IsAuthority :
      (config : Option Config) → Returns (λ x. IsAuthority c x.0) (new_ca c config)
  new_ca-IsAuthority config = Returns-weaken _ _ _ (λ x h. h.0) (new_ca-IsKeyOf config)

  pub new_cert_and_key-IsKeyOf :
      (ca : Certificate) (s : c.Signer) (config : Config)
      → Returns (λ x. IsLeaf c config x.0 × IsKeyOf c x.0 x.1) (new_cert_and_key c ca s config)
  unfolding new_cert_and_key new_signed_cert
  new_cert_and_key-IsKeyOf ca s config = Returns-bind _ _ (λ key.
      Returns-bind_of (λ x. IsLeaf c config x × IsKeyOf c x key) _ _
        (explain-Returns _ _ _ (
          Returns-bind _ _
            (λ now. Returns-weaken _ _ _ (leaf-IsLeaf config now _) (parse-Returns _ _ _ _))))
        (λ x h. Returns-pure _ h))

  -- What NewCertAndKey issues carries the names and usages asked for, has serial number 0, is
  -- valid for ten years and is no certificate authority. The code outside behaves as documented.
  pub new_cert_and_key-IsLeaf :
      (ca : Certificate) (s : c.Signer) (config : Config)
      → Returns (λ x. IsLeaf c config x.0) (new_cert_and_key c ca s config)
  new_cert_and_key-IsLeaf ca s config =
      Returns-weaken _ _ _ (λ x h. h.0) (new_cert_and_key-IsKeyOf ca s config)
