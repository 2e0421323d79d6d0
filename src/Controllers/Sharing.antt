-- ===== src/Controllers/Sharing.antt =====
-- A settled tenant in a host cluster that `Reconcile` (tenant_controller.go) shares among tenants.
use multi_tenants.Base.{◌≡◌, refl, sym, ◌∙◌, ap, subst, ok}
use multi_tenants.Api.{Kind, ObjectKey, Tenant, cluster_namespace_in_host}
use multi_tenants.Client.Server.{Lookup}
use multi_tenants.ControllerUtil.Creating.{IsPresent}
use multi_tenants.Controllers.Setup.{Platform, TenantController}
use multi_tenants.Controllers.Normal.{host_namespace}
use multi_tenants.Controllers.Reconcile.{reconcile}
use multi_tenants.Controllers.Footprint.{IsLawfulPlatform}
use multi_tenants.Controllers.Isolation.{name_of, BelongsTo, Turns, Turns-isolated}
use multi_tenants.Controllers.Settled.{IsSettled}
use multi_tenants.Controllers.Resting.{reconcile_rests}

module _ {W : Type 0} (p : Platform W) (c : TenantController) (lookup : Lookup W)
    (lawful : IsLawfulPlatform p lookup) (u : Tenant) where
  abbrev pub namespace_key : Tenant → ObjectKey
  namespace_key t = p.client.object_key Kind.namespace (host_namespace t)

  -- What happens to the cluster: turns of tenants of other names, in which Tenants may be edited,
  -- and runs of the tenant's own, each of which reads it in a settled state.
  pub data Shifts (w0 : W) : W → Type 0 where
    begin : Shifts w0 w0
    others : {w x : W} → Shifts w0 w → Turns p c lookup lawful u w x → Shifts w0 x
    alone :
        {w : W} (t : Tenant) (key : ObjectKey)
        → Shifts w0 w
        → IsSettled p c lookup lawful t
        → name_of t ≡ name_of u
        → (p.client.get Kind.tenant key w).0 ≡ ok t
        → p.client.object_key Kind.tenant t ≡ key
        → Shifts w0 (reconcile p c key w).1

  namespace_key_lem :
      (t : Tenant) → namespace_key t ≡ record { namespace = ""; name = cluster_namespace_in_host t }
  namespace_key_lem t = lawful.client.object_key_lem Kind.namespace (host_namespace t)

  cluster_same :
      (t : Tenant)
      → name_of t ≡ name_of u
      → cluster_namespace_in_host t ≡ cluster_namespace_in_host u
  unfolding cluster_namespace_in_host
  cluster_same t same = rw same refl

  same_namespace : (t : Tenant) → name_of t ≡ name_of u → namespace_key t ≡ namespace_key u
  same_namespace t same =
      namespace_key_lem t
      ∙ ap (λ n. record { namespace = ""; name = n }) (cluster_same t same)
      ∙ sym (namespace_key_lem u)

  own_namespace : BelongsTo u Kind.namespace (namespace_key u)
  own_namespace = ap (λ (x : ObjectKey). x.name) (namespace_key_lem u)

  still-IsPresent :
      {w0 w : W} (t : Tenant)
      → name_of t ≡ name_of u
      → IsPresent lookup Kind.namespace (namespace_key u) w0
      → lookup Kind.namespace (namespace_key u) w ≡ lookup Kind.namespace (namespace_key u) w0
      → IsPresent lookup Kind.namespace (namespace_key t) w
  still-IsPresent {w = w} t named (o, held) same =
      subst (λ x. IsPresent lookup Kind.namespace x w) (sym (same_namespace t named))
        (o, same ∙ held)

  -- The namespace of a tenant, which exists at first, and each secret, deployment and service in
  -- it stay as they are, and none is added, through any sequence of turns of other tenants and
  -- of runs of its own. Each of its own runs reads the tenant under its own key and in a settled
  -- state: it has the finalizer, is not deleted, needs no provisioning, shows the phase Ready,
  -- and its conditions are in order, Ready in the very state that the handler sets. In the turns
  -- others may act between the calls: they read, create objects of tenants of other names, patch
  -- Tenants, or change Tenants. The code outside behaves as documented.
  pub settled_in_company :
      {w0 w : W}
      → IsPresent lookup Kind.namespace (namespace_key u) w0
      → Shifts w0 w
      → (k : Kind) (slot : ObjectKey) → BelongsTo u k slot
      → lookup k slot w ≡ lookup k slot w0
  settled_in_company there begin k slot own = refl
  settled_in_company there (others before turns) k slot own =
      Turns-isolated p c lookup lawful u turns k slot own
      ∙ settled_in_company there before k slot own
  settled_in_company there (alone {w} t key before settled named found keyed) k slot own =
      let still =
        still-IsPresent t named there
          (settled_in_company there before Kind.namespace (namespace_key u) own_namespace) in
      reconcile_rests p c lookup lawful t key w settled found keyed still k slot
      ∙ settled_in_company there before k slot own
