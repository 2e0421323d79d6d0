-- ===== src/Controllers/Resting.antt =====
-- What `Reconcile` (tenant_controller.go) does to the host cluster for a settled tenant.
use multi_tenants.Base.{
  ◌≡◌, refl, sym, ◌∙◌, ap, subst, inl, inr, Bool-cases, Keeps, Keeps-bind, Keeps-pure, pure,
  attempt, some, Result, ok, err, string_eq, nat_eq,
}
use multi_tenants.Api.{Kind, ObjectKey, Tenant}
use multi_tenants.Conditions.TenantConditions.{tenant_setter}
use multi_tenants.Client.Server.{Lookup}
use multi_tenants.ControllerUtil.Creating.{IsPresent, create_if_not_exists_found}
use multi_tenants.ControllerUtil.Quiet.{patch_if_exists-still}
use multi_tenants.Controllers.Setup.{Platform, TenantController}
use multi_tenants.Controllers.Phase.{reconcile_phase}
use multi_tenants.Controllers.Normal.{
  ReconcileResult, Handled, host_namespace, check_ready, end_normal, check_and_end, after_namespace,
  ensure_namespace, reconcile_normal,
}
use multi_tenants.Controllers.Reconcile.{
  handle_tenant, copy_fields, finish_reconcile, on_tenant, reconcile,
}
use multi_tenants.Controllers.Footprint.{IsLawfulPlatform}
use multi_tenants.Controllers.Lifecycle.{handle_tenant-normal}
use multi_tenants.Controllers.Readiness.{check_ready-reads}
use multi_tenants.Controllers.Deferred.{copied, deferred_patch, finish_reconcile-world}
use multi_tenants.Controllers.Settled.{IsSettled, handle_tenant-settled, phase-settled}

some_inj : (a b : Tenant) → some a ≡ some b → a ≡ b
some_inj a b h = cc

module _ {W : Type 0} (p : Platform W) (c : TenantController) (lookup : Lookup W)
    (lawful : IsLawfulPlatform p lookup) where
  module _ (t : Tenant) (h : IsSettled p c lookup lawful t) where
    -- The cluster still holds what it held in `w0`, where the namespace of the tenant exists.
    module _ (w0 : W)
        (there : IsPresent lookup Kind.namespace
          (p.client.object_key Kind.namespace (host_namespace t))
          w0) where
      abbrev Agrees : W → Type 0
      Agrees w = (k : Kind) (slot : ObjectKey) → lookup k slot w ≡ lookup k slot w0

      get-Agrees : (k : Kind) (key : ObjectKey) → Keeps Agrees (p.client.get k key)
      get-Agrees k key = record {
        run = λ w same j slot. lawful.client.get-reads k j key slot w ∙ same j slot;
      }

      ensure_namespace-Agrees : Keeps Agrees (ensure_namespace p c t)
      unfolding ensure_namespace
      ensure_namespace-Agrees =
          Keeps-bind _ _
            (record {
              run = λ w same.
                  subst Agrees
                    (sym
                      (create_if_not_exists_found p.client p.machinery lookup lawful.client
                        Kind.namespace pure (host_namespace t) w
                        (
                          there.0,
                          same Kind.namespace
                                (p.client.object_key Kind.namespace (host_namespace t))
                              ∙ there.1,
                        )).0)
                    ((get-Agrees Kind.namespace _).run w same);
            })
            (λ _. Keeps-pure _)

      end_normal-Agrees :
          (r : Result ReconcileResult) (w : W) → Agrees w → Agrees (end_normal p c t (r, w)).world
      unfolding end_normal
      end_normal-Agrees (err e) w same = same
      end_normal-Agrees (ok r) w same = elim (Bool-cases r.requeue) [
        | inl b ↦ rw b same
        | inr b ↦ rw b (λ k slot. lawful.now-reads k slot w ∙ same k slot)
      ]

      after_namespace-Agrees :
          (r : Result (Unit {0})) (w : W) → Agrees w → Agrees (after_namespace p c t (r, w)).world
      unfolding after_namespace check_and_end
      after_namespace-Agrees (err e) w same = same
      after_namespace-Agrees (ok a) w same = rw h.enough (
          end_normal-Agrees (check_ready p c t w).0 (check_ready p c t w).1
            (λ k slot. check_ready-reads p c lookup lawful.client t w k slot ∙ same k slot))

      handle_tenant-Agrees : (w : W) → Agrees w → Agrees (handle_tenant p c t w).world
      unfolding reconcile_normal
      handle_tenant-Agrees w same =
          subst (λ x. Agrees x.world)
            (sym (handle_tenant-normal p c lawful.machinery t w h.held h.live))
            (after_namespace-Agrees (ensure_namespace p c t w).0 (ensure_namespace p c t w).1
              (ensure_namespace-Agrees.run w same))

      -- The deferred patch finds the tenant as the handler left it, and sends nothing.
      finish_reconcile-Agrees :
          (x : Handled W)
          → x.tenant ≡ t
          → Agrees x.world
          → lookup Kind.tenant (p.client.object_key Kind.tenant t) w0 ≡ some t
          → Agrees (finish_reconcile p c x).1
      unfolding copy_fields pure
      finish_reconcile-Agrees x left same stored =
          subst Agrees (sym (finish_reconcile-world p c x ∙ quiet))
            ((get-Agrees Kind.tenant (p.client.object_key Kind.tenant sent)).run x.world same)
        where
          sent : Tenant
          sent = reconcile_phase p.machinery x.tenant

          sent-same : sent ≡ t
          sent-same =
              ap (λ u. reconcile_phase p.machinery u) left ∙ phase-settled p c lookup lawful t h

          read-same :
              (base : Tenant)
              → (p.client.get Kind.tenant (p.client.object_key Kind.tenant sent) x.world).0
                ≡ ok base
              → base ≡ sent
          read-same base read = some_inj base sent (
              sym (lawful.client.get-found Kind.tenant _ x.world base read)
              ∙ same Kind.tenant (p.client.object_key Kind.tenant sent)
              ∙ ap (λ u. lookup Kind.tenant (p.client.object_key Kind.tenant u) w0) sent-same
              ∙ stored
              ∙ ap (λ u. some u) (sym sent-same))

          quiet :
              (deferred_patch p c x).1
              ≡ (p.client.get Kind.tenant (p.client.object_key Kind.tenant sent) x.world).1
          quiet =
              patch_if_exists-still p.client p.machinery p.converter Kind.tenant
                (copy_fields p c sent) (λ o w. refl) sent x.world
                (λ base read. subst (λ u. ok (copied u base) ≡ ok base) (read-same base read) refl)

  -- A whole run of Reconcile on a settled tenant whose namespace exists leaves the host cluster
  -- as it is, the Tenant included, whatever its calls return and wherever it fails. Settled: it
  -- has the finalizer, is not deleted, needs no provisioning, shows the phase Ready, and its
  -- conditions are in order, Ready in the very state that the handler sets. The run has read the
  -- tenant under its own key. The code outside behaves as documented.
  pub reconcile_rests :
      (t : Tenant) (key : ObjectKey) (w : W)
      → IsSettled p c lookup lawful t
      → (p.client.get Kind.tenant key w).0 ≡ ok t
      → p.client.object_key Kind.tenant t ≡ key
      → IsPresent lookup Kind.namespace (p.client.object_key Kind.namespace (host_namespace t)) w
      → (k : Kind) (slot : ObjectKey) → lookup k slot (reconcile p c key w).1 ≡ lookup k slot w
  unfolding reconcile attempt
  reconcile_rests t key w h found keyed there =
      subst (λ r. Agrees t h w there (on_tenant p c r read_world).1) (sym found)
        (finish_reconcile-Agrees t h w there (handle_tenant p c t read_world)
          (handle_tenant-settled p c lookup lawful t h read_world)
          (handle_tenant-Agrees t h w there read_world
            ((get-Agrees t h w there Kind.tenant key).run w (λ k slot. refl)))
          (subst (λ x. lookup Kind.tenant x w ≡ some t) (sym keyed)
            (lawful.client.get-found Kind.tenant key w t found)))
    where
      read_world : W
      read_world = (p.client.get Kind.tenant key w).1
