-- ===== src/Controllers/Footprint.antt =====
-- What `reconcileNormal` (tenant_controller.go) may change in the host cluster.
use multi_tenants.Base.{
  ◌≡◌, refl, sym, ◌∙◌, ◌⊎◌, inl, inr, subst, none, some, Result, ok, err, Keeps, Bool-cases, ℕ,
}
use multi_tenants.Api.{
  Kind, Kind-discrete, Object, ObjectKey, ObjectKey_eq, ObjectMeta, Tenant, IsLawfulMachinery,
  meta_of,
}
use multi_tenants.Conditions.Order.{IsLawfulSorter}
use multi_tenants.Client.Server.{Lookup, IsLawfulClient, SameMeta, Stores, Creation}
use multi_tenants.Secret.{Certificate, IsLawfulCrypto}
use multi_tenants.Controllers.Setup.{Platform, TenantController}
use multi_tenants.Controllers.Normal.{
  provision, needs_provision, check_ready, end_normal, check_and_end, end_provision,
  after_namespace, ensure_namespace, reconcile_normal, ReconcileResult,
}
use multi_tenants.Controllers.Ownership.{
  InScope, IsOwned, OwnedKeeps, provision-Keeps, ensure_namespace-Keeps, check_ready-Keeps,
}

-- The code outside does what its documentation says, and the clock, the random source and signing
-- leave the host cluster alone.
pub record IsLawfulPlatform {W : Type 0} (p : Platform W) (lookup : Lookup W) : Type 0 where
  pub client : IsLawfulClient p.client p.machinery lookup
  pub machinery : IsLawfulMachinery p.machinery
  pub sorter : IsLawfulSorter p.sort_slice
  pub crypto : IsLawfulCrypto p.crypto
  pub now-reads :
      (k : Kind) (slot : ObjectKey) (w : W) → lookup k slot (p.crypto.now w).1 ≡ lookup k slot w
  pub generate_key-reads :
      (k : Kind) (slot : ObjectKey) (bits : ℕ) (w : W)
      → lookup k slot (p.crypto.generate_key bits w).1 ≡ lookup k slot w
  pub create_certificate-reads :
      (k : Kind) (slot : ObjectKey) (t parent : Certificate) (key : p.crypto.PublicKey)
      (s : p.crypto.Signer) (w : W)
      → lookup k slot (p.crypto.create_certificate t parent key s w).1 ≡ lookup k slot w

module _ {W : Type 0} (p : Platform W) (c : TenantController) (t : Tenant) (P : W → Type 0)
    (h : OwnedKeeps p t P) where
  end_normal-world :
      (u : Tenant) (r : Result ReconcileResult) (w : W) → P w → P (end_normal p c u (r, w)).world
  unfolding end_normal
  end_normal-world u (err e) w x = x
  end_normal-world u (ok r) w x = elim (Bool-cases r.requeue) [
    | inl b ↦ rw b x
    | inr b ↦ rw b (h.crypto.now w x)
  ]

  check_and_end-world : (u : Tenant) (w : W) → P w → P (check_and_end p c u w).world
  unfolding check_and_end
  check_and_end-world u w x =
      end_normal-world u (check_ready p c u w).0 (check_ready p c u w).1
        ((check_ready-Keeps p t P h c u).run w x)

  end_provision-world :
      (u : Tenant) (r : Result (Unit {0})) (w : W) → P w → P (end_provision p c u (r, w)).world
  unfolding end_provision
  end_provision-world u (err e) w x = h.crypto.now w x
  end_provision-world u (ok a) w x = check_and_end-world _ (p.crypto.now w).1 (h.crypto.now w x)

  after_namespace-world :
      (r : Result (Unit {0})) (w : W) → P w → P (after_namespace p c t (r, w)).world
  unfolding after_namespace
  after_namespace-world (err e) w x = x
  after_namespace-world (ok a) w x = elim (Bool-cases (needs_provision p c t)) [
    | inl b ↦ rw b (
        end_provision-world t (provision p c t w).0 (provision p c t w).1
          ((provision-Keeps p t P h c).run w x))
    | inr b ↦ rw b (check_and_end-world t w x)
  ]

  -- Whatever the reads and the creation of owned objects keep, the handler keeps.
  pub reconcile_normal-world : (w : W) → P w → P (reconcile_normal p c t w).world
  unfolding reconcile_normal
  reconcile_normal-world w x =
      after_namespace-world (ensure_namespace p c t w).0 (ensure_namespace p c t w).1
        ((ensure_namespace-Keeps p t P h c).run w x)

Stores-meta : (k : Kind) (o o' : Object k) → Stores k o o' → SameMeta (meta_of k o) (meta_of k o')
Stores-meta Kind.tenant o o' s = s
Stores-meta Kind.namespace o o' s = s
Stores-meta Kind.secret o o' s = s.0
Stores-meta Kind.deployment o o' s = s.0
Stores-meta Kind.service o o' s = s.0

InScope-SameMeta :
    (t : Tenant) (k : Kind) (a b : ObjectMeta) → SameMeta a b → InScope t k a → InScope t k b
InScope-SameMeta t Kind.tenant a b s i = i
InScope-SameMeta t Kind.namespace a b s i = (s.name ∙ i.0, s.namespace ∙ i.1)
InScope-SameMeta t Kind.secret a b s i = s.namespace ∙ i
InScope-SameMeta t Kind.deployment a b s i = s.namespace ∙ i
InScope-SameMeta t Kind.service a b s i = s.namespace ∙ i

IsOwned-Stores :
    (t : Tenant) (k : Kind) (o o' : Object k) → Stores k o o' → IsOwned t k o → IsOwned t k o'
IsOwned-Stores t k o o' s (i, owner) =
    let same = Stores-meta k o o' s in
    (InScope-SameMeta t k (meta_of k o) (meta_of k o') same i, same.owner_references ∙ owner)

-- Between two worlds a slot keeps what it holds, or it was empty and now holds an object of the
-- tenant's own.
abbrev pub SlotStep : {W : Type 0} → Lookup W → Tenant → (k : Kind) → ObjectKey → W → W → Type 0
SlotStep lookup t k slot w w' =
    (lookup k slot w' ≡ lookup k slot w)
    ⊎ ((lookup k slot w ≡ none) × ((o : Object k) × (lookup k slot w' ≡ some o) × IsOwned t k o))

module _ {W : Type 0} (lookup : Lookup W) (t : Tenant) (w0 : W) where
  step-Creation :
      (k : Kind) (slot : ObjectKey) (o : Object k) (w w' : W)
      → IsOwned t k o
      → Creation lookup k slot o w w'
      → SlotStep lookup t k slot w0 w
      → SlotStep lookup t k slot w0 w'
  step-Creation k slot o w w' own (inl same) (inl q) = inl (same ∙ q)
  step-Creation k slot o w w' own (inl same) (inr (empty, (x, held, q))) =
      inr (empty, (x, same ∙ held, q))
  step-Creation k slot o w w' own (inr (empty, (x, held, stores))) (inl q) =
      inr (sym q ∙ empty, (x, held, IsOwned-Stores t k o x stores own))
  step-Creation k slot o w w' own (inr (empty, (x, held, stores))) (inr (e, (y, held', q))) = cc

  pub step_unchanged :
      (k : Kind) (slot : ObjectKey) (w w' : W)
      → lookup k slot w' ≡ lookup k slot w
      → SlotStep lookup t k slot w0 w
      → SlotStep lookup t k slot w0 w'
  step_unchanged k slot w w' same (inl q) = inl (same ∙ q)
  step_unchanged k slot w w' same (inr (empty, (x, held, q))) = inr (empty, (x, same ∙ held, q))

module _ {W : Type 0} (p : Platform W) (lookup : Lookup W) (lawful : IsLawfulPlatform p lookup)
    (t : Tenant) (w0 : W) (k : Kind) (slot : ObjectKey) where
  open lawful use {now-reads, generate_key-reads, create_certificate-reads}

  abbrev P : W → Type 0
  P = SlotStep lookup t k slot w0

  create-same :
      (j : Kind) (o : Object j) (w : W)
      → IsOwned t j o
      → p.client.object_key j o ≡ slot
      → SlotStep lookup t j slot w0 w
      → SlotStep lookup t j slot w0 (p.client.create j o w).1
  create-same j o w own e =
      subst (λ x. SlotStep lookup t j x w0 w → SlotStep lookup t j x w0 (p.client.create j o w).1) e
        (step-Creation lookup t w0 j (p.client.object_key j o) o w (p.client.create j o w).1 own
          (lawful.client.create-slot j o w))

  create-Keeps : (j : Kind) (o : Object j) → IsOwned t j o → Keeps P (p.client.create j o)
  create-Keeps j o own = record {
    run = λ w. elim (Kind-discrete j k) [
      | no differ ↦
          step_unchanged lookup t w0 k slot w (p.client.create j o w).1
            (lawful.client.create-frame j k o slot w (λ e _. differ e))
      | yes e ↦ elim (ObjectKey_eq.dec (p.client.object_key j o) slot) [
        | yes same ↦
            subst
              (λ x.
                SlotStep lookup t x slot w0 w
                → SlotStep lookup t x slot w0 (p.client.create j o w).1)
              e (create-same j o w own same)
        | no differ ↦
            step_unchanged lookup t w0 k slot w (p.client.create j o w).1
              (lawful.client.create-frame j k o slot w (λ _ e'. differ e'))
      ]
    ];
  }

  -- The calls of the controller take such steps.
  pub SlotStep-OwnedKeeps : OwnedKeeps p t P
  SlotStep-OwnedKeeps = record {
    crypto = record {
      now = λ w. step_unchanged lookup t w0 k slot w _ (now-reads k slot w);
      generate_key = λ bits. record {
        run = λ w. step_unchanged lookup t w0 k slot w _ (generate_key-reads k slot bits w);
      };
      create_certificate = λ a b key s. record {
        run = λ w.
            step_unchanged lookup t w0 k slot w _ (create_certificate-reads k slot a b key s w);
      };
    };
    get = λ j key. record {
      run = λ w. step_unchanged lookup t w0 k slot w _ (lawful.client.get-reads j k key slot w);
    };
    create = create-Keeps;
  }

-- A run of reconcileNormal is such a step at every slot.
pub reconcile_normal-SlotStep :
    {W : Type 0} (p : Platform W) (lookup : Lookup W)
    → IsLawfulPlatform p lookup
    → (c : TenantController) (t : Tenant) (w : W) (k : Kind) (slot : ObjectKey)
    → SlotStep lookup t k slot w (reconcile_normal p c t w).world
reconcile_normal-SlotStep p lookup lawful c t w k slot =
    reconcile_normal-world p c t (SlotStep lookup t k slot w)
      (SlotStep-OwnedKeeps p lookup lawful t w k slot) w (inl refl)
