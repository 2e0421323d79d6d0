-- ===== src/Secret/Primitives.antt =====
-- crypto/x509, crypto/rsa, encoding/pem, net and time, as far as the source calls them: the
-- algorithms are parameters, over the world outside `W`.
use multi_tenants.Base.{ℕ, ◌-◌, ◌%◌, String, Bool, Option, some, List, Result, ok, Call, ◌≡◌}
use multi_tenants.Api.{Bytes, Time}

pub data KeyUsage : Type 0 where
  key_encipherment digital_signature cert_sign : KeyUsage

pub data ExtKeyUsage : Type 0 where
  server_auth client_auth : ExtKeyUsage

-- `certutil.Config`
pub record Config : Type 0 where
  pub common_name : String
  pub organization : List String
  pub dns_names : List String
  pub ips : List Bytes
  pub usages : List ExtKeyUsage

-- `x509.Certificate`, a template and what is parsed alike; a template has no raw bytes. A set of
-- key usages is the list of its flags.
pub record Certificate : Type 0 where
  pub serial_number : ℕ
  pub common_name : String
  pub organization : List String
  pub dns_names : List String
  pub ip_addresses : List Bytes
  pub not_before : Time
  pub not_after : Time
  pub key_usage : List KeyUsage
  pub ext_key_usage : List ExtKeyUsage
  pub basic_constraints_valid : Bool
  pub is_ca : Bool
  pub max_path_len : ℕ
  pub max_path_len_zero : Bool
  pub raw : Bytes

-- `pem.Block`
pub record Block : Type 0 where
  pub type : String
  pub bytes : Bytes

pub record Crypto (W : Type 0) : Type 1 where
  pub RsaKey : Type 0
  pub RsaPublicKey : Type 0
  pub Signer : Type 0
  pub PublicKey : Type 0
  -- What `x509.ParsePKCS8PrivateKey` returns, an `interface{}`.
  pub AnyKey : Type 0
  -- `time.Now`
  pub now : W → Time × W
  -- `rsa.GenerateKey(rand.Reader, bits)`
  pub generate_key : ℕ → Call W RsaKey
  -- `crypto.Signer(key)`
  pub signer : RsaKey → Signer
  -- `key.Public()`, and `.(*rsa.PublicKey)`
  pub public : Signer → PublicKey
  pub as_rsa_public : PublicKey → Option RsaPublicKey
  -- `x509.CreateCertificate(rand.Reader, template, parent, pub, priv)`
  pub create_certificate : Certificate → Certificate → PublicKey → Signer → Call W Bytes
  pub parse_certificate : Bytes → Result Certificate
  -- The public key in a certificate, `cert.PublicKey`.
  pub certified_key : Certificate → PublicKey
  pub marshal_pkcs1 : RsaKey → Bytes
  pub marshal_pkix : RsaPublicKey → Result Bytes
  pub parse_pkcs1 : Bytes → Result RsaKey
  pub parse_pkcs8 : Bytes → Result AnyKey
  -- `.(crypto.Signer)`
  pub as_signer : AnyKey → Option Signer
  -- `x509.ParseECPrivateKey`, its result as a `crypto.Signer`
  pub parse_ec : Bytes → Result Signer
  -- `pem.EncodeToMemory` and the block of `pem.Decode`
  pub encode_to_memory : Block → Bytes
  pub pem_decode : Bytes → Option Block
  -- `net.ParseIP`
  pub parse_ip : String → Bytes

-- A parsed certificate `b` says what the template `a` of its creation says; times are encoded in
-- whole seconds.
pub record SameContents (a b : Certificate) : Type 0 where
  pub serial_number : b.serial_number ≡ a.serial_number
  pub common_name : b.common_name ≡ a.common_name
  pub organization : b.organization ≡ a.organization
  pub dns_names : b.dns_names ≡ a.dns_names
  pub not_before : b.not_before ≡ a.not_before - a.not_before % 1_000_000_000
  pub not_after : b.not_after ≡ a.not_after - a.not_after % 1_000_000_000
  pub key_usage : b.key_usage ≡ a.key_usage
  pub ext_key_usage : b.ext_key_usage ≡ a.ext_key_usage
  pub is_ca : b.is_ca ≡ a.is_ca

pub record IsLawfulCrypto {W : Type 0} (c : Crypto W) : Type 0 where
  -- The blocks that the source writes are read back from their text.
  pub decode-certificate :
      (der : Bytes)
      → c.pem_decode (c.encode_to_memory (record { type = "CERTIFICATE"; bytes = der }))
        ≡ some (record { type = "CERTIFICATE"; bytes = der })
  pub decode-private_key :
      (der : Bytes)
      → c.pem_decode (c.encode_to_memory (record { type = "RSA PRIVATE KEY"; bytes = der }))
        ≡ some (record { type = "RSA PRIVATE KEY"; bytes = der })
  pub parse-marshal : (k : c.RsaKey) → c.parse_pkcs1 (c.marshal_pkcs1 k) ≡ ok k
  pub parse-raw : (b : Bytes) (x : Certificate) → c.parse_certificate b ≡ ok x → x.raw ≡ b
  -- The public half of an RSA key is an RSA key.
  pub public-rsa :
      (k : c.RsaKey) → (p : c.RsaPublicKey) × (c.as_rsa_public (c.public (c.signer k)) ≡ some p)
  -- A certificate that is created from a template says what the template says, and certifies the
  -- public key that is given beside it.
  pub parse-create :
      (t parent : Certificate) (p : c.PublicKey) (s : c.Signer) (w : W) (b : Bytes)
      (x : Certificate)
      → (c.create_certificate t parent p s w).0 ≡ ok b
      → c.parse_certificate b ≡ ok x
      → SameContents t x × (c.certified_key x ≡ p)
