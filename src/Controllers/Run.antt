-- ===== src/Controllers/Run.antt =====
-- What a whole run of `Reconcile` (tenant_controller.go), its deferred patch included, may change
-- in the host cluster beside the Tenant itself.
use multi_tenants.Base.{
  ◌≡◌, ◌⊎◌, refl, sym, subst, inl, inr, Bool-cases, none, some, Result, ok, err, attempt, Keeps,
  Keeps-pure,
}
use multi_tenants.Api.{Kind, ObjectKey, Tenant, TenantPhase, is_phase}
use multi_tenants.Client.Server.{Lookup}
use multi_tenants.ControllerUtil.Patch.{Operation, patch_if_exists}
use multi_tenants.ControllerUtil.Patching.{patch_if_exists-world}
use multi_tenants.Controllers.Setup.{Platform, TenantController}
use multi_tenants.Controllers.Phase.{reconcile_phase}
use multi_tenants.Controllers.Normal.{ReconcileResult, Handled, reconcile_normal}
use multi_tenants.Controllers.Reconcile.{
  tenant_finalizer, handle_tenant, reconcile_delete, copy_fields, join_error, finish_reconcile,
  on_tenant, reconcile,
}
use multi_tenants.Controllers.Ownership.{OwnedKeeps}
use multi_tenants.Controllers.Footprint.{
  IsLawfulPlatform, SlotStep, step_unchanged, SlotStep-OwnedKeeps, reconcile_normal-world,
}

module _ {W : Type 0} (p : Platform W) (c : TenantController) where
  join_error-world :
      (P : W → Type 0) (result : Result ReconcileResult) (x : Operation × W)
      → P x.1
      → P (join_error p c result x).1
  join_error-world P result ((_, none), w) h = h
  join_error-world P result ((_, some e), w) h = h

  delete_world : (t : Tenant) (w : W) → (reconcile_delete p c t w).world ≡ w
  unfolding reconcile_delete
  delete_world t w = elim (Bool-cases (is_phase t.status TenantPhase.terminating)) [
    | inl late ↦ rw late refl
    | inr early ↦ rw early refl
  ]

  -- A handler acts on the world by `reconcileNormal` alone.
  pub handle_tenant-world :
      (t : Tenant) (w : W)
      → ((handle_tenant p c t w).world ≡ w)
        ⊎ ((handle_tenant p c t w).world ≡ (reconcile_normal p c t w).world)
  unfolding handle_tenant
  handle_tenant-world t w =
      elim (Bool-cases (p.machinery.contains_finalizer t.object_meta.finalizers tenant_finalizer)) [
        | inr absent ↦ inl (rw absent refl)
        | inl held ↦ elim (Bool-cases (p.machinery.is_zero t.object_meta.deletion_timestamp)) [
          | inl live ↦ inr (rw (held, live) refl)
          | inr deleted ↦ inl (rw (held, deleted) (delete_world t w))
        ]
      ]

  -- What a run over a tenant `t` keeps: its calls, and the deferred patches of a Tenant.
  pub record RunKeeps (t : Tenant) (P : W → Type 0) : Type 0 where
    pub calls : OwnedKeeps p t P
    pub patch : (base o : Tenant) → Keeps P (p.client.patch Kind.tenant base o)
    pub patch_status : (base o : Tenant) → Keeps P (p.client.patch_status Kind.tenant base o)

  module _ (P : W → Type 0) where
    module _ (t : Tenant) (h : RunKeeps t P) where
      finish_reconcile-world : (x : Handled W) → P x.world → P (finish_reconcile p c x).1
      unfolding finish_reconcile copy_fields
      finish_reconcile-world x before =
          join_error-world P x.result
            (patch_if_exists p.client p.machinery p.converter Kind.tenant sent
              (some (copy_fields p c sent)) x.world)
            (patch_if_exists-world p.client p.machinery p.converter Kind.tenant P h.patch
              h.patch_status sent (copy_fields p c sent) (h.calls.get Kind.tenant)
              (λ o. Keeps-pure _) x.world before)
        where
          sent : Tenant
          sent = reconcile_phase p.machinery x.tenant

      on_tenant-world : (w : W) → P w → P (on_tenant p c (ok t) w).1
      on_tenant-world w before =
          finish_reconcile-world (handle_tenant p c t w) (elim (handle_tenant-world t w) [
            | inl same ↦ subst P (sym same) before
            | inr normal ↦ subst P (sym normal) (reconcile_normal-world p c t P h.calls w before)
          ])

    -- A run keeps what its read keeps and what the rest keeps on the tenant that was read.
    pub reconcile-world :
        (key : ObjectKey)
        → Keeps P (p.client.get Kind.tenant key)
        → (w : W) → ((t : Tenant) → (p.client.get Kind.tenant key w).0 ≡ ok t → RunKeeps t P)
        → P w
        → P (reconcile p c key w).1
    unfolding reconcile attempt
    reconcile-world key reads w h before = after (p.client.get Kind.tenant key w).0 h
      where
        after :
            (r : Result Tenant)
            → ((t : Tenant) → r ≡ ok t → RunKeeps t P)
            → P (on_tenant p c r (p.client.get Kind.tenant key w).1).1
        after (err e) keeps = reads.run w before
        after (ok t) keeps = on_tenant-world t (keeps t refl) _ (reads.run w before)

  module _ (lookup : Lookup W) (lawful : IsLawfulPlatform p lookup) (k : Kind)
      (other : k ≡ Kind.tenant → ⊥) (slot : ObjectKey) where
    -- A patch of a Tenant leaves the slots of the other kinds alone.
    pub patches_same :
        (base o : Tenant) (w : W)
        → (lookup k slot (p.client.patch Kind.tenant base o w).1 ≡ lookup k slot w)
          × (lookup k slot (p.client.patch_status Kind.tenant base o w).1 ≡ lookup k slot w)
    patches_same base o w = (
      lawful.client.patch-frame Kind.tenant k base o slot w (λ e _. other (sym e)),
      lawful.client.patch_status-frame Kind.tenant k base o slot w (λ e _. other (sym e)),
    )

    -- Whatever a whole run of Reconcile on a tenant does, its deferred patch included, and
    -- wherever it fails: each object other than a Tenant stays as it was in the host cluster,
    -- and each new one lies in the namespace of the tenant (or is that namespace) and has the
    -- tenant as its one owner. The run has read the tenant. The code outside behaves as
    -- documented.
    pub reconcile-SlotStep :
        (t : Tenant) (w0 : W) (key : ObjectKey)
        → (p.client.get Kind.tenant key w0).0 ≡ ok t
        → SlotStep lookup t k slot w0 (reconcile p c key w0).1
    reconcile-SlotStep t w0 key found =
        reconcile-world (SlotStep lookup t k slot w0) key reads w0
          (λ u read. subst (λ x. RunKeeps x (SlotStep lookup t k slot w0)) (cc) keeps) (inl refl)
      where
        keeps : RunKeeps t (SlotStep lookup t k slot w0)
        keeps = record {
          calls = SlotStep-OwnedKeeps p lookup lawful t w0 k slot;
          patch = λ base o. record {
            run = λ w. step_unchanged lookup t w0 k slot w _ (patches_same base o w).0;
          };
          patch_status = λ base o. record {
            run = λ w. step_unchanged lookup t w0 k slot w _ (patches_same base o w).1;
          };
        }

        reads : Keeps (SlotStep lookup t k slot w0) (p.client.get Kind.tenant key)
        reads = keeps.calls.get Kind.tenant key
