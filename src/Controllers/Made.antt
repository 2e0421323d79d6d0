-- ===== src/Controllers/Made.antt =====
-- What becomes of a slot of the host cluster that is empty, where the phases
-- (tenant_controller_phase.go) create an object there or elsewhere.
use multi_tenants.Base.{
  String, ◌≡◌, ◌≢◌, refl, sym, ◌∙◌, ap, subst, inl, inr, none, some, ok, Call, pure, ◌>>=◌, >>=-ok,
  >>=-of_ok, Keeps, Keeps-bind, Keeps-pure, Returns, Returns-bind, Returns-pure,
}
use multi_tenants.Api.{Kind, Object, ObjectKey, DeploymentSpec, Tenant, meta_of}
use multi_tenants.Secret.{Config}
use multi_tenants.Secret.Keeping.{CryptoKeeps}
use multi_tenants.Client.Server.{Lookup, Stores}
use multi_tenants.ControllerUtil.{OperationResult, MutateFn, create_if_not_exists}
use multi_tenants.ControllerUtil.Creating.{create_if_not_exists-Keeps}
use multi_tenants.ControllerUtil.Fresh.{create_if_not_exists-IsMade}
use multi_tenants.Controllers.Setup.{Platform, TenantController}
use multi_tenants.Controllers.Secrets.{
  new_secret, fill_server_cert, reconcile_secret, fill_kube_config, create_kube_config,
  reconcile_kube_config,
}
use multi_tenants.Controllers.ApiServer.{new_deployment, new_service, fill_deployment, fill_service}
use multi_tenants.Controllers.Ownership.{fill_server_cert-Keeps, fill_kube_config-Keeps}
use multi_tenants.Controllers.Footprint.{IsLawfulPlatform, SlotStep}
use multi_tenants.Controllers.Readiness.{key_in_host}

-- A call whose continuation gave a result.
pub follow :
    {W A B : Type 0} (m : Call W A) (f : A → Call W B) (w : W) (b : B)
    → ((m >>= f) w).0 ≡ ok b
    → (a : A) × ((m w).0 ≡ ok a) × ((m >>= f) w ≡ f a (m w).1) × ((f a (m w).1).0 ≡ ok b)
follow m f w b h =
    let (a, (first, rest)) = >>=-ok m f w b h in (a, first, >>=-of_ok m f w a first, rest)

module _ {W : Type 0} (p : Platform W) (lookup : Lookup W) (lawful : IsLawfulPlatform p lookup)
    (t : Tenant) where
  -- The calls that create an object.
  abbrev pub creation : (k : Kind) → Object k → MutateFn W k → Call W (Unit {0})
  creation k o f = do _ ← create_if_not_exists p.client p.machinery k o f; pure tt

  -- An object that is held stays.
  pub held_on :
      (k : Kind) (slot : ObjectKey) (o : Object k) (w w' : W)
      → SlotStep lookup t k slot w w'
      → lookup k slot w ≡ some o
      → lookup k slot w' ≡ some o
  held_on k slot o w w' (inl same) held = same ∙ held
  held_on k slot o w w' (inr (empty, _)) held = cc

  -- Where nothing is, an object that is created holds what the mutation filled in.
  pub record IsFilledIn (k : Kind) (Q : Object k → Type 0) (name : String) (w : W) : Type 0 where
    pub sent : Object k
    pub stored : Object k
    pub promised : Q sent
    pub alike : Stores k sent stored
    pub held : lookup k (key_in_host t name) w ≡ some stored

  pub made :
      (k : Kind) (o : Object k) (f : MutateFn W k) (Q : Object k → Type 0) (name : String) (w : W)
      (r : OperationResult)
      → p.client.object_key k o ≡ key_in_host t name
      → lookup k (key_in_host t name) w ≡ none
      → Returns Q (f o)
      → (create_if_not_exists p.client p.machinery k o f w).0 ≡ ok r
      → IsFilledIn k Q name (create_if_not_exists p.client p.machinery k o f w).1
  made k o f Q name w r key empty returns done =
      let call = create_if_not_exists p.client p.machinery k o f in
      let made =
        create_if_not_exists-IsMade p.client p.machinery lookup lawful.client k f Q o w r
          (subst (λ s. lookup k s w ≡ none) (sym key) empty) returns done in
      record {
        sent = made.sent;
        stored = made.stored;
        promised = made.promised;
        alike = made.alike;
        held = subst (λ s. lookup k s (call w).1 ≡ some made.stored) key made.held;
      }

  pub creation-made :
      (k : Kind) (o : Object k) (f : MutateFn W k) (Q : Object k → Type 0) (name : String) (w : W)
      (a : Unit {0})
      → p.client.object_key k o ≡ key_in_host t name
      → lookup k (key_in_host t name) w ≡ none
      → Returns Q (f o)
      → (creation k o f w).0 ≡ ok a
      → IsFilledIn k Q name (creation k o f w).1
  unfolding pure
  creation-made k o f Q name w a key empty returns h =
      let call = create_if_not_exists p.client p.machinery k o f in
      let (r, done, same, _) = follow call (λ _. pure tt) w a h in
      subst (λ x. IsFilledIn k Q name x.1) (sym same) (made k o f Q name w r key empty returns done)

  -- A slot in the namespace of the tenant.
  module _ (k : Kind) (other : String) where
    abbrev pub Missing : W → Type 0
    Missing w = lookup k (key_in_host t other) w ≡ none

    Missing-get : (j : Kind) (key : ObjectKey) → Keeps Missing (p.client.get j key)
    Missing-get j key = record { run = λ w e. lawful.client.get-reads j k key _ w ∙ e }

    Missing-CryptoKeeps : CryptoKeeps p.crypto Missing
    Missing-CryptoKeeps = record {
      now = λ w e. lawful.now-reads k _ w ∙ e;
      generate_key = λ bits. record { run = λ w e. lawful.generate_key-reads k _ bits w ∙ e };
      create_certificate =
          λ a b key s. record { run = λ w e. lawful.create_certificate-reads k _ a b key s w ∙ e };
    }

    -- The creation of an object of another kind or name.
    call-Missing :
        (j : Kind) (o : Object j) (name : String) (f : MutateFn W j)
        → (j ≡ k → name ≢ other)
        → ((x : Object j) → Keeps Missing (f x))
        → Returns (λ x. (meta_of j x).name ≡ name) (f o)
        → Keeps Missing (create_if_not_exists p.client p.machinery j o f)
    call-Missing j o name f differ mutates returns =
        create_if_not_exists-Keeps p.client p.machinery j f Missing (λ x. (meta_of j x).name ≡ name)
          o (Missing-get j) mutates returns
          (λ x named. record {
            run = λ w e.
                lawful.client.create-frame j k x (key_in_host t other) w (λ e' at. differ e' (
                  sym named
                  ∙ ap (λ (y : ObjectKey). y.name) (sym (lawful.client.object_key_lem j x) ∙ at)))
                ∙ e;
          })

    creation-Missing :
        (j : Kind) (o : Object j) (name : String) (f : MutateFn W j)
        → (j ≡ k → name ≢ other)
        → ((x : Object j) → Keeps Missing (f x))
        → Returns (λ x. (meta_of j x).name ≡ name) (f o)
        → Keeps Missing (creation j o f)
    creation-Missing j o name f differ mutates returns =
        Keeps-bind _ _ (call-Missing j o name f differ mutates returns) (λ _. Keeps-pure _)

    -- What the phases leave empty.
    pub reconcile_secret-Missing :
        (c : TenantController)
        → (Kind.secret ≡ k → "server-cert" ≢ other)
        → Keeps Missing (reconcile_secret p c t)
    unfolding reconcile_secret fill_server_cert
    reconcile_secret-Missing c differ =
        creation-Missing Kind.secret (new_secret t "server-cert") "server-cert"
          (fill_server_cert p c t) differ
          (fill_server_cert-Keeps p t _ Missing-CryptoKeeps Missing-get c)
          (Returns-bind _ _ (λ _. Returns-pure _ refl))

    pub create_kube_config-Missing :
        (name file : String) (config : Config)
        → (Kind.secret ≡ k → name ≢ other)
        → Keeps Missing (create_kube_config p t name file config)
    unfolding create_kube_config fill_kube_config
    create_kube_config-Missing name file config differ =
        creation-Missing Kind.secret (new_secret t name) name (fill_kube_config p t file config)
          differ (fill_kube_config-Keeps p t _ Missing-CryptoKeeps Missing-get file config)
          (Returns-bind _ _
            (λ _. Returns-bind _ _ (λ _. Returns-bind _ _ (λ _. Returns-pure _ refl))))

    pub reconcile_kube_config-Missing :
        (Kind.secret ≡ k → ⊥) → Keeps Missing (reconcile_kube_config p t)
    unfolding reconcile_kube_config
    reconcile_kube_config-Missing differ =
        Keeps-bind _ _ (create_kube_config-Missing _ _ _ (λ e _. differ e))
          (λ _. create_kube_config-Missing _ _ _ (λ e _. differ e))

    pub deployment-Missing :
        (name : String) (spec : DeploymentSpec)
        → (Kind.deployment ≡ k → name ≢ other)
        → Keeps Missing (
            create_if_not_exists p.client p.machinery Kind.deployment
              (new_deployment t name)
              (fill_deployment p t spec))
    unfolding fill_deployment
    deployment-Missing name spec differ =
        call-Missing Kind.deployment (new_deployment t name) name (fill_deployment p t spec) differ
          (λ _. Keeps-pure _) (Returns-pure _ refl)

    pub service-Missing :
        (name : String)
        → (Kind.service ≡ k → name ≢ other)
        → Keeps Missing (
            create_if_not_exists p.client p.machinery Kind.service
              (new_service t name)
              (fill_service p t))
    unfolding fill_service
    service-Missing name differ =
        call-Missing Kind.service (new_service t name) name (fill_service p t) differ
          (λ _. Keeps-pure _) (Returns-pure _ refl)
