-- ===== src/Tests/Keys.antt =====
-- Keys and certificates of the examples. Keys are numbers, and a certificate is its place in the
-- list of those that the examples issue.
use multi_tenants.Base.{
  ap, subst, sym, ◌∙◌, ℕ, zero, suc, ◌-◌, ◌%◌, String, true, ◌≡◌, refl, Option, none, some, List,
  [], ◌∷◌, Result, ok, err, message, string_eq, nat_eq, ◌==◌, if◌then◌else◌,
}
use multi_tenants.Api.{Bytes, Time}
use multi_tenants.Secret.{
  Config, Certificate, Crypto, Block, IsLawfulCrypto, SameContents, client_auth, server_auth,
  key_encipherment, digital_signature, cert_sign,
}
use multi_tenants.Secret.Certificates.{ca_config, ca_template, cert_template}
use multi_tenants.Tests.Server.{Host}

abbrev pub test_now : Time
test_now = 3_600_000_000_000

abbrev pub admin_config : Config
admin_config = record {
  common_name = "kubernetes-admin";
  organization = "system:masters" ∷ [];
  dns_names = [];
  ips = [];
  usages = client_auth ∷ [];
}

issued : List Certificate
unfolding ca_template ca_config cert_template
issued =
    ca_template
      (ca_config
        (record { common_name = ""; organization = []; dns_names = []; ips = []; usages = [] }))
      test_now
    ∷ cert_template admin_config test_now
    ∷ cert_template
        (record {
          common_name = "kube-apiserver";
          organization = [];
          dns_names = "kube-apiserver.acme.svc" ∷ "localhost" ∷ [];
          ips = [] ∷ [];
          usages = server_auth ∷ [];
        })
        test_now
    ∷ cert_template (record admin_config { common_name = "kube-apiserver-kubelet-client" }) test_now
    ∷ ca_template
        (ca_config (record {
          common_name = "";
          organization = [];
          dns_names = "front-proxy-ca" ∷ [];
          ips = [];
          usages = [];
        }))
        test_now
    ∷ cert_template (record admin_config { common_name = "front-proxy-client"; organization = [] })
        test_now
    ∷ cert_template
        (record admin_config { common_name = "system:kube-controller-manager"; organization = [] })
        test_now
    ∷ []

certificate_dec : Discrete Certificate
certificate_dec = hlevel (string_eq.dec, nat_eq.dec)

place : Certificate → List Certificate → Option ℕ
unfolding certificate_dec
place t [] = none
place t (x ∷ xs) =
    let rest = place t xs in
    elim (certificate_dec x t) [
      | yes _ ↦ some 0
      | no _ ↦ elim rest [ none ↦ none | some n ↦ some (suc n) ]
    ]

nth : ℕ → List Certificate → Option Certificate
nth n [] = none
nth zero (x ∷ xs) = some x
nth (suc n) (x ∷ xs) = nth n xs

some_inj : {A : Type 0} (a b : A) → some a ≡ some b → a ≡ b
some_inj a b h = cc

ok_inj : {A : Type 0} (a b : A) → Result.ok a ≡ ok b → a ≡ b
ok_inj a b h = cc

place_cases :
    (t x : Certificate) (xs : List Certificate) (d : Dec (x ≡ t)) (o : Option ℕ) (n : ℕ)
    → ((m : ℕ) → o ≡ some m → nth m xs ≡ some t)
    → (elim d as (λ _. Option ℕ) [
      | yes _ ↦ some 0
      | no _ ↦ elim o [ none ↦ none | some m ↦ some (suc m) ]
    ])
      ≡ some n
    → nth n (x ∷ xs) ≡ some t
unfolding nth
place_cases t x xs (yes e) o n ih h =
    subst (λ k. nth k (x ∷ xs) ≡ some t) (some_inj 0 n h) (ap some e)
place_cases t x xs (no _) none n ih h = cc
place_cases t x xs (no _) (some m) n ih h =
    subst (λ k. nth k (x ∷ xs) ≡ some t) (some_inj (suc m) n h) (ih m refl)

place-nth :
    (t : Certificate) (xs : List Certificate) (n : ℕ) → place t xs ≡ some n → nth n xs ≡ some t
unfolding place nth
place-nth t [] n h = cc
place-nth t (x ∷ xs) n h =
    place_cases t x xs (certificate_dec x t) (place t xs) n (place-nth t xs) h

whole_seconds : Time → Time
whole_seconds t = t - t % 1_000_000_000

sealed : Bytes → Certificate → Certificate
unfolding whole_seconds
sealed b x = record x {
  raw = b;
  not_before = whole_seconds x.not_before;
  not_after = whole_seconds x.not_after;
}

certificate_of : Option Certificate → Bytes → Result Certificate
certificate_of none b = err (message "x509: malformed certificate")
certificate_of (some x) b = ok (sealed b x)

parse : Bytes → Result Certificate
unfolding issued nth certificate_of sealed
parse [] = certificate_of none []
parse (n ∷ []) = certificate_of none (n ∷ [])
parse (n ∷ k ∷ []) = certificate_of (nth n issued) (n ∷ k ∷ [])
parse (n ∷ k ∷ m ∷ b) = certificate_of none (n ∷ k ∷ m ∷ b)

-- The place of the template and the public key.
bytes_of : Option ℕ → ℕ → Result Bytes
bytes_of none k = err (message "x509: unknown template")
bytes_of (some n) k = ok (n ∷ k ∷ [])

key_in : Bytes → ℕ
key_in (n ∷ k ∷ b) = k
key_in (n ∷ []) = 0
key_in [] = 0

block_tag : String → ℕ
block_tag t = if t == "CERTIFICATE" then 0 else 1

block_of : Bytes → Option Block
block_of [] = none
block_of (n ∷ b) =
    some (record { type = if n == 0 then "CERTIFICATE" else "RSA PRIVATE KEY"; bytes = b })

rsa_key : Bytes → Result ℕ
rsa_key [] = err (message "asn1: syntax error")
rsa_key (n ∷ b) = ok n

unfoldable pub test_crypto : Crypto Host
unfolding place issued bytes_of parse key_in rsa_key block_tag block_of
test_crypto = record {
  RsaKey = ℕ;
  RsaPublicKey = ℕ;
  Signer = ℕ;
  PublicKey = ℕ;
  AnyKey = ℕ;
  now = λ w. (test_now, w);
  generate_key = λ bits w. (ok bits, w);
  signer = λ k. k;
  public = λ s. s;
  as_rsa_public = λ k. some k;
  create_certificate = λ t parent k s w. (bytes_of (place t issued) k, w);
  parse_certificate = parse;
  certified_key = λ x. key_in x.raw;
  marshal_pkcs1 = λ k. k ∷ [];
  marshal_pkix = λ k. ok (k ∷ []);
  parse_pkcs1 = rsa_key;
  parse_pkcs8 = rsa_key;
  as_signer = λ k. some k;
  parse_ec = rsa_key;
  encode_to_memory = λ b. block_tag b.type ∷ b.bytes;
  pem_decode = block_of;
  parse_ip = λ s. [];
}

certificate_of-raw :
    (o : Option Certificate) (b : Bytes) (x : Certificate) → certificate_of o b ≡ ok x → x.raw ≡ b
unfolding certificate_of sealed
certificate_of-raw none b x h = cc
certificate_of-raw (some y) b x h = ap (λ c. c.raw) (sym (ok_inj (sealed b y) x h))

parse-raw : (b : Bytes) (x : Certificate) → parse b ≡ ok x → x.raw ≡ b
unfolding parse certificate_of sealed
parse-raw [] x h = cc
parse-raw (n ∷ []) x h = cc
parse-raw (n ∷ k ∷ []) x h = certificate_of-raw (nth n issued) (n ∷ k ∷ []) x h
parse-raw (n ∷ k ∷ m ∷ b) x h = cc

sealed-SameContents : (b : Bytes) (t : Certificate) → SameContents t (sealed b t)
unfolding sealed whole_seconds
sealed-SameContents b t = record {
  serial_number = refl;
  common_name = refl;
  organization = refl;
  dns_names = refl;
  not_before = refl;
  not_after = refl;
  key_usage = refl;
  ext_key_usage = refl;
  is_ca = refl;
}

parse-issued :
    (t : Certificate) (k : ℕ) (o : Option ℕ) (b : Bytes) (x : Certificate)
    → place t issued ≡ o
    → bytes_of o k ≡ ok b
    → parse b ≡ ok x
    → SameContents t x × (key_in x.raw ≡ k)
unfolding bytes_of parse certificate_of key_in sealed
parse-issued t k none b x e h q = cc
parse-issued t k (some n) b x e h q =
    subst (λ y. SameContents t y × (key_in y.raw ≡ k))
      (ok_inj (sealed (n ∷ k ∷ []) t) x (found ∙ q')) (sealed-SameContents (n ∷ k ∷ []) t, refl)
  where
    q' : certificate_of (nth n issued) (n ∷ k ∷ []) ≡ ok x
    q' = ap parse (ok_inj (n ∷ k ∷ []) b h) ∙ q

    found : Result.ok (sealed (n ∷ k ∷ []) t) ≡ certificate_of (nth n issued) (n ∷ k ∷ [])
    found = ap (λ o. certificate_of o (n ∷ k ∷ [])) (sym (place-nth t issued n e))

abbrev pub test_key : test_crypto.RsaKey
unfolding test_crypto
test_key = 2048

-- The certificate authority of the examples, as it is parsed.
abbrev pub test_ca : Certificate
test_ca = record {
  serial_number = 0;
  common_name = "ca";
  organization = "kcp" ∷ [];
  dns_names = [];
  ip_addresses = [];
  not_before = 3_300_000_000_000;
  not_after = 315_363_600_000_000_000;
  key_usage = key_encipherment ∷ digital_signature ∷ cert_sign ∷ [];
  ext_key_usage = [];
  basic_constraints_valid = true;
  is_ca = true;
  max_path_len = 0;
  max_path_len_zero = true;
  raw = 0 ∷ 2048 ∷ [];
}

pub test_ca_parsed : test_crypto.parse_certificate (0 ∷ 2048 ∷ []) ≡ ok test_ca
unfolding test_crypto parse issued nth certificate_of sealed whole_seconds ca_template ca_config
test_ca_parsed = refl

pub test_ca_matched :
    test_crypto.certified_key test_ca ≡ test_crypto.public (test_crypto.signer test_key)
unfolding test_crypto key_in
test_ca_matched = refl

pub test_crypto-IsLawfulCrypto : IsLawfulCrypto test_crypto
unfolding test_crypto block_tag block_of string_eq nat_eq
test_crypto-IsLawfulCrypto = record {
  decode-certificate = λ der. refl;
  decode-private_key = λ der. refl;
  parse-marshal = λ k. refl;
  parse-raw = parse-raw;
  public-rsa = λ k. (k, refl);
  parse-create = λ t parent p s w b x h q. parse-issued t p (place t issued) b x refl h q;
}
