-- ===== src/Controllers/Isolation.antt =====
-- What a run of `Reconcile` (tenant_controller.go) for one tenant may do to another tenant's part
-- of the host cluster.
use text.Mathlib.TextLemmas.{append_cancel_left}
use multi_tenants.Base.{Call, String, ◌≡◌, ◌≢◌, refl, sym, ◌∙◌, ap, subst, ok, Keeps}
use multi_tenants.Api.{Kind, Object, ObjectKey, Tenant, meta_of, cluster_namespace_in_host}
use multi_tenants.Client.Server.{Lookup}
use multi_tenants.Controllers.Setup.{Platform, TenantController}
use multi_tenants.Controllers.Reconcile.{reconcile}
use multi_tenants.Controllers.Ownership.{OwnedKeeps, IsOwned}
use multi_tenants.Controllers.Footprint.{IsLawfulPlatform}
use multi_tenants.Controllers.Run.{RunKeeps, reconcile-world, patches_same}

abbrev pub name_of : Tenant → String
name_of t = t.object_meta.name

-- The slots of a tenant's part of the host cluster: its namespace and what lies in it.
abbrev pub BelongsTo : Tenant → Kind → ObjectKey → Type 0
BelongsTo u Kind.tenant slot = ⊥
BelongsTo u Kind.namespace slot = slot.name ≡ cluster_namespace_in_host u
BelongsTo u Kind.secret slot = slot.namespace ≡ cluster_namespace_in_host u
BelongsTo u Kind.deployment slot = slot.namespace ≡ cluster_namespace_in_host u
BelongsTo u Kind.service slot = slot.namespace ≡ cluster_namespace_in_host u

-- Two tenants with one namespace have one name.
namespace_inj :
    (t u : Tenant)
    → cluster_namespace_in_host t ≡ cluster_namespace_in_host u
    → name_of t ≡ name_of u
unfolding cluster_namespace_in_host
namespace_inj t u e = append_cancel_left "tenant-" (name_of t) (name_of u) e

not_tenant : (u : Tenant) (k : Kind) (slot : ObjectKey) → BelongsTo u k slot → k ≡ Kind.tenant → ⊥
not_tenant u Kind.tenant slot b e = b
not_tenant u Kind.namespace slot b e = cc
not_tenant u Kind.secret slot b e = cc
not_tenant u Kind.deployment slot b e = cc
not_tenant u Kind.service slot b e = cc

-- An object of `t` does not lie at a slot of `u`.
IsOwned-BelongsTo :
    (t u : Tenant) (k : Kind) (o : Object k) (slot : ObjectKey)
    → IsOwned t k o
    → record { namespace = (meta_of k o).namespace; name = (meta_of k o).name } ≡ slot
    → BelongsTo u k slot
    → name_of t ≡ name_of u
IsOwned-BelongsTo t u Kind.tenant o slot own at b = absurd b
IsOwned-BelongsTo t u Kind.namespace o slot own at b =
    namespace_inj t u (sym own.0.0 ∙ ap (λ (x : ObjectKey). x.name) at ∙ b)
IsOwned-BelongsTo t u Kind.secret o slot own at b =
    namespace_inj t u (sym own.0 ∙ ap (λ (x : ObjectKey). x.namespace) at ∙ b)
IsOwned-BelongsTo t u Kind.deployment o slot own at b =
    namespace_inj t u (sym own.0 ∙ ap (λ (x : ObjectKey). x.namespace) at ∙ b)
IsOwned-BelongsTo t u Kind.service o slot own at b =
    namespace_inj t u (sym own.0 ∙ ap (λ (x : ObjectKey). x.namespace) at ∙ b)

-- The platform of a run before each of whose calls to the API server others act.
abbrev pub interleaved : {W : Type 0} → Platform W → (W → W) → Platform W
interleaved p others = record p {
  client = record (p.client) {
    get = λ k key w. p.client.get k key (others w);
    create = λ k o w. p.client.create k o (others w);
    update = λ k o w. p.client.update k o (others w);
    patch = λ k base o w. p.client.patch k base o (others w);
    patch_status = λ k base o w. p.client.patch_status k base o (others w);
  };
}

module _ {W : Type 0} (p : Platform W) (c : TenantController) (lookup : Lookup W)
    (lawful : IsLawfulPlatform p lookup) (u : Tenant) where
  module _ (k : Kind) (slot : ObjectKey) (own : BelongsTo u k slot) (w0 : W) where
    abbrev Same : W → Type 0
    Same w = lookup k slot w ≡ lookup k slot w0

    -- An object of another tenant goes elsewhere.
    create_elsewhere :
        (t : Tenant)
        → name_of t ≢ name_of u
        → (j : Kind) (o : Object j) → IsOwned t j o
        → Keeps Same (p.client.create j o)
    create_elsewhere t another j o owned = record {
      run = λ w same.
          lawful.client.create-frame j k o slot w (λ e at. another (
            IsOwned-BelongsTo t u j o slot owned (sym (lawful.client.object_key_lem j o) ∙ at)
              (subst (λ x. BelongsTo u x slot) (sym e) own)))
          ∙ same;
    }

    get_elsewhere : (j : Kind) (key : ObjectKey) → Keeps Same (p.client.get j key)
    get_elsewhere j key = record { run = λ w same. lawful.client.get-reads j k key slot w ∙ same }

    patched :
        (base o : Tenant) (w : W)
        → (lookup k slot (p.client.patch Kind.tenant base o w).1 ≡ lookup k slot w)
          × (lookup k slot (p.client.patch_status Kind.tenant base o w).1 ≡ lookup k slot w)
    patched = patches_same p c lookup lawful k (not_tenant u k slot own) slot

  -- What others do to the API server: they read, create objects of tenants of other names, and
  -- patch Tenants, as other workers do, or change Tenants, as users do.
  pub data Acts (w : W) : W → Type 0 where
    idle : Acts w w
    read : {x : W} (k : Kind) (key : ObjectKey) → Acts w x → Acts w (p.client.get k key x).1
    make :
        {x : W} (t : Tenant) (k : Kind) (o : Object k)
        → name_of t ≢ name_of u
        → IsOwned t k o
        → Acts w x
        → Acts w (p.client.create k o x).1
    patch : {x : W} (base o : Tenant) → Acts w x → Acts w (p.client.patch Kind.tenant base o x).1
    patch_status :
        {x : W} (base o : Tenant) → Acts w x → Acts w (p.client.patch_status Kind.tenant base o x).1
    edit :
        {x : W} (x' : W)
        → ((k : Kind) (slot : ObjectKey)
            → (k ≡ Kind.tenant → ⊥)
            → lookup k slot x' ≡ lookup k slot x)
        → Acts w x
        → Acts w x'

  module _ (k : Kind) (slot : ObjectKey) (own : BelongsTo u k slot) where
    Acts-same : {w x : W} → Acts w x → lookup k slot x ≡ lookup k slot w
    Acts-same idle = refl
    Acts-same (read j key before) = lawful.client.get-reads j k key slot _ ∙ Acts-same before
    Acts-same {w} (make t j o another owned before) =
        (create_elsewhere k slot own w t another j o owned).run _ (Acts-same before)
    Acts-same {w} (patch base o before) = (patched k slot own w base o _).0 ∙ Acts-same before
    Acts-same {w} (patch_status base o before) =
        (patched k slot own w base o _).1 ∙ Acts-same before
    Acts-same (edit x' same before) = same k slot (not_tenant u k slot own) ∙ Acts-same before

    module _ (others : W → W) (acts : (w : W) → Acts w (others w)) (w0 : W) where
      abbrev shared : Platform W
      shared = interleaved p others

      abbrev Still : W → Type 0
      Still = Same k slot own w0

      -- A call of the run, once the others have acted.
      after_others : {A : Type 0} (m : Call W A) → Keeps Still m → Keeps Still (λ w. m (others w))
      after_others m h = record { run = λ w same. h.run (others w) (Acts-same (acts w) ∙ same) }

      Same-OwnedKeeps : (t : Tenant) → name_of t ≢ name_of u → OwnedKeeps shared t Still
      Same-OwnedKeeps t another = record {
        crypto = record {
          now = λ w same. lawful.now-reads k slot w ∙ same;
          generate_key =
              λ bits. record { run = λ w same. lawful.generate_key-reads k slot bits w ∙ same };
          create_certificate = λ a b key s. record {
            run = λ w same. lawful.create_certificate-reads k slot a b key s w ∙ same;
          };
        };
        get = λ j key. after_others _ (get_elsewhere k slot own w0 j key);
        create = λ j o owned. after_others _ (create_elsewhere k slot own w0 t another j o owned);
      }

      Same-RunKeeps : (t : Tenant) → name_of t ≢ name_of u → RunKeeps shared c t Still
      Same-RunKeeps t another = record {
        calls = Same-OwnedKeeps t another;
        patch = λ base o.
            after_others (p.client.patch Kind.tenant base o)
              (record { run = λ w same. (patched k slot own w0 base o w).0 ∙ same });
        patch_status = λ base o.
            after_others (p.client.patch_status Kind.tenant base o)
              (record { run = λ w same. (patched k slot own w0 base o w).1 ∙ same });
      }

      -- One run, from the world `w0` on.
      run-same :
          (key : ObjectKey)
          → ((t : Tenant) → (shared.client.get Kind.tenant key w0).0 ≡ ok t → name_of t ≢ name_of u)
          → lookup k slot (reconcile shared c key w0).1 ≡ lookup k slot w0
      run-same key another =
          reconcile-world shared c Still key
            (after_others _ (get_elsewhere k slot own w0 Kind.tenant key)) w0
            (λ t read. Same-RunKeeps t (another t read)) refl

  -- A sequence of runs for tenants of other names or for none, where others may act before each
  -- call of a run to the API server, with changes of Tenants by users in between.
  pub data Turns (w0 : W) : W → Type 0 where
    start : Turns w0 w0
    turn :
        {w : W} (key : ObjectKey) (others : W → W)
        → Turns w0 w
        → ((x : W) → Acts x (others x))
        → ((t : Tenant)
            → ((interleaved p others).client.get Kind.tenant key w).0 ≡ ok t
            → name_of t ≢ name_of u)
        → Turns w0 (reconcile (interleaved p others) c key w).1
    pause : {w x : W} → Turns w0 w → Acts w x → Turns w0 x

  -- Whatever runs of Reconcile for tenants of other names do, in any number and order, wherever
  -- they fail, with other workers or users acting before each call to the API server: the
  -- namespace of a tenant and each secret, deployment and service in it stays as it was, and
  -- none is added. The others read, create objects of tenants of other names, patch Tenants, or
  -- change Tenants. The code outside behaves as documented.
  pub Turns-isolated :
      {w0 w : W}
      → Turns w0 w
      → (k : Kind) (slot : ObjectKey) → BelongsTo u k slot
      → lookup k slot w ≡ lookup k slot w0
  Turns-isolated start k slot own = refl
  Turns-isolated (turn {w} key others before acts another) k slot own =
      run-same k slot own others acts w key another ∙ Turns-isolated before k slot own
  Turns-isolated (pause before acts) k slot own =
      Acts-same k slot own acts ∙ Turns-isolated before k slot own
