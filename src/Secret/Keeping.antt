-- ===== src/Secret/Keeping.antt =====
-- The calls of pkg/secret act on the world outside by the clock, the random source and the signing
-- call alone.
use multi_tenants.Base.{
  ℕ, String, Option, none, some, ok, err, Call, pure, throw, Keeps, Keeps-attempt, Keeps-pure,
  Keeps-throw, Keeps-bind, keeps,
}
use multi_tenants.Secret.Primitives.{Config, Certificate, Crypto}
use multi_tenants.Secret.Certificates.{
  time_now, new_ca, new_cert_and_key, new_pub_and_key, explain, public_error,
}

pub record CryptoKeeps {W : Type 0} (c : Crypto W) (P : W → Type 0) : Type 0 where
  pub now : (w : W) → P w → P (c.now w).1
  pub generate_key : (bits : ℕ) → Keeps P (c.generate_key bits)
  pub create_certificate :
      (t parent : Certificate) (k : c.PublicKey) (s : c.Signer)
      → Keeps P (c.create_certificate t parent k s)

module _ {W : Type 0} (c : Crypto W) (P : W → Type 0) (h : CryptoKeeps c P) where
  open h use {generate_key, create_certificate}

  time_now-Keeps : Keeps P (time_now c)
  unfolding time_now
  time_now-Keeps = record { run = h.now }

  explain-Keeps : {A : Type 0} (text : String) (m : Call W A) → Keeps P m → Keeps P (explain text m)
  unfolding explain
  explain-Keeps text m k =
      Keeps-attempt m _ k (elim [ ok a ↦ Keeps-pure a | err e ↦ Keeps-throw _ ])

  pub new_ca-Keeps : (config : Option Config) → Keeps P (new_ca c config)
  unfolding new_ca
  new_ca-Keeps config = search (keeps, generate_key, create_certificate, time_now-Keeps) depth 12

  pub new_cert_and_key-Keeps :
      (ca : Certificate) (s : c.Signer) (config : Config) → Keeps P (new_cert_and_key c ca s config)
  unfolding new_cert_and_key
  new_cert_and_key-Keeps ca s config =
      search (keeps, generate_key, create_certificate, time_now-Keeps, explain-Keeps) depth 14

  pub new_pub_and_key-Keeps : Keeps P (new_pub_and_key c)
  unfolding new_pub_and_key
  new_pub_and_key-Keeps =
      Keeps-bind _ _ (search (keeps, generate_key, explain-Keeps))
        (λ key. by_public (c.as_rsa_public (c.public (c.signer key))) key)
    where
      by_public :
          (o : Option c.RsaPublicKey) (key : c.RsaKey)
          → Keeps {A = c.RsaPublicKey × c.RsaKey} P
              (elim o [ none ↦ throw (public_error c) | some r ↦ pure (r, key) ])
      by_public none key = Keeps-throw (public_error c)
      by_public (some r) key = Keeps-pure _
