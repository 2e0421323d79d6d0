-- ===== src/Controllers/Material.antt =====
-- The secret that `reconcileSecret` fills in is one that `parseCASecret` reads
-- (tenant_controller_phase.go).
use multi_tenants.Base.{
  String, ◌≡◌, refl, ◌∙◌, some, List, ok, lookup, lookup-insert, string_eq, Returns,
  Returns-bind_of, Returns-bind, Returns-pure, pure, lift, ap, >>=-of_ok,
}
use multi_tenants.Api.{Bytes, Kind, Tenant, Secret}
use multi_tenants.Secret.{Certificate, IsLawfulCrypto}
use multi_tenants.Secret.Certs.{encode_cert_pem, encode_private_key_pem}
use multi_tenants.Secret.Coding.{decode_cert_pem-encode, decode_private_key_pem-encode}
use multi_tenants.Secret.Issuing.{IsAuthority, IsKeyOf, new_ca-IsKeyOf}
use multi_tenants.Controllers.Setup.{Platform, TenantController}
use multi_tenants.Controllers.Secrets.{
  Material, server_cert_contents, new_material, fill_server_cert, entry, parse_ca_secret,
}

module _ {W : Type 0} (p : Platform W) where
  open p use {crypto}

  -- The tenant's own authority stands in the contents, whatever the etcd secret holds.
  lookup-ca_crt :
      (etcd : List (String × Bytes)) (x : Material p)
      → lookup "ca.crt" (server_cert_contents p etcd x) ≡ some (encode_cert_pem crypto x.server_ca)
  unfolding server_cert_contents string_eq
  lookup-ca_crt etcd x = simp (server_cert_contents, lookup-insert)

  lookup-ca_key :
      (etcd : List (String × Bytes)) (x : Material p)
      → lookup "ca.key" (server_cert_contents p etcd x)
        ≡ some (encode_private_key_pem crypto x.server_ca_key)
  unfolding server_cert_contents string_eq
  lookup-ca_key etcd x = simp (server_cert_contents, lookup-insert)

  -- A certificate authority and the key that belongs to it stand in the contents of a secret.
  pub record HasAuthority (contents : List (String × Bytes)) : Type 0 where
    pub ca : Certificate
    pub key : crypto.RsaKey
    pub crt_held : lookup "ca.crt" contents ≡ some (encode_cert_pem crypto ca)
    pub key_held : lookup "ca.key" contents ≡ some (encode_private_key_pem crypto key)
    pub authority : IsAuthority crypto ca
    pub matched : IsKeyOf crypto ca key

  module _ (lawful : IsLawfulCrypto crypto) where
    new_material-Returns :
        (t : Tenant)
        → Returns
            (λ x. IsAuthority crypto x.server_ca × IsKeyOf crypto x.server_ca x.server_ca_key)
            (new_material p t)
    unfolding new_material
    new_material-Returns t =
        Returns-bind_of (λ x. IsAuthority crypto x.0 × IsKeyOf crypto x.0 x.1) _ _
          (new_ca-IsKeyOf crypto lawful _)
          (λ x h. Returns-bind _ _ (λ _. Returns-bind _ _ (λ _. Returns-bind _ _ (λ _.
            Returns-bind _ _
              (λ _. Returns-bind _ _ (λ _. Returns-bind _ _ (λ _. Returns-pure _ h)))))))

    -- Whenever reconcileSecret fills in the server-cert secret, its contents have a certificate
    -- authority named "ca", and the very key whose public half that authority certifies,
    -- whatever the etcd entries are and whatever the secret was before. The code outside behaves
    -- as documented.
    pub fill_server_cert-HasAuthority :
        (c : TenantController) (t : Tenant) (o : Secret)
        → Returns (λ s. HasAuthority s.contents) (fill_server_cert p c t o)
    unfolding fill_server_cert
    fill_server_cert-HasAuthority c t o =
        Returns-bind_of
          (λ x. IsAuthority crypto x.server_ca × IsKeyOf crypto x.server_ca x.server_ca_key) _ _
          (new_material-Returns t)
          (λ x h. Returns-pure _ (record {
            ca = x.server_ca;
            key = x.server_ca_key;
            crt_held = lookup-ca_crt c.etcd_secret x;
            key_held = lookup-ca_key c.etcd_secret x;
            authority = h.0;
            matched = h.1;
          }))

    entry-held :
        (name : String) (s : Secret) (b : Bytes) (w : W)
        → lookup name s.contents ≡ some b
        → (entry p name s w).0 ≡ ok b
    unfolding entry pure
    entry-held name s b w held = rw (entry, held) refl

    -- From a secret that the server returns with an authority and the key that belongs to it,
    -- parseCASecret reads that authority and the signer of that key. The code outside behaves as
    -- documented.
    pub parse_ca_secret-HasAuthority :
        (namespace name : String) (w : W) (s : Secret) (h : HasAuthority s.contents)
        → (p.client.get Kind.secret (record { namespace = namespace; name = name }) w).0 ≡ ok s
        → (parse_ca_secret p namespace name w).0 ≡ ok (h.ca, crypto.signer h.key)
    unfolding parse_ca_secret lift pure
    parse_ca_secret-HasAuthority namespace name w s h got =
        ap (λ r. r.0)
          (>>=-of_ok _ _ w s got
            ∙ >>=-of_ok _ _ _ _ (entry-held "ca.crt" s _ _ h.crt_held)
            ∙ >>=-of_ok _ _ _ _ (
                decode_cert_pem-encode crypto lawful h.authority.readable.0 h.ca
                  h.authority.readable.1)
            ∙ >>=-of_ok _ _ _ _ (entry-held "ca.key" s _ _ h.key_held)
            ∙ >>=-of_ok _ _ _ _ (decode_private_key_pem-encode crypto lawful p.machinery h.key))
