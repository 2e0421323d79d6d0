-- ===== src/Controllers/Convergence.antt =====
-- How the passes of the reconciler (tenant_controller.go) over a tenant come to an end.
use multi_tenants.Base.{true, false, ◌≡◌, refl, sym, ◌∙◌, ap, subst, ok, string_eq}
use multi_tenants.Api.{
  Time, Tenant, get_conditions, tenant_condition_ready, tenant_condition_provisioned,
}
use multi_tenants.Conditions.{get, has, is_false}
use multi_tenants.Conditions.TenantConditions.{tenant_setter, tenant_setter-IsLawfulSetter}
use multi_tenants.Conditions.Reading.{IsUnique}
use multi_tenants.Conditions.Marking.{get-mark_true}
use multi_tenants.Client.Server.{Lookup}
use multi_tenants.Controllers.Setup.{Platform, TenantController}
use multi_tenants.Controllers.PhaseLaws.{is_deleting, expected_phase, reconcile_phase-priority}
use multi_tenants.Controllers.Phase.{reconcile_phase}
use multi_tenants.Controllers.Normal.{no_requeue, needs_provision}
use multi_tenants.Controllers.Reconcile.{tenant_finalizer, handle_tenant}
use multi_tenants.Controllers.Footprint.{IsLawfulPlatform}
use multi_tenants.Controllers.Marks.{
  marked-object_meta, marked-IsOrdered, has-marked, is_false-marked,
}
use multi_tenants.Controllers.Handling.{mark_ready}
use multi_tenants.Controllers.Lifecycle.{with_phase, holds, pass, handle_tenant-normal}
use multi_tenants.Controllers.Outcomes.{IsHealthy, healthy_end}
use multi_tenants.Controllers.Liveness.{marked-ready, first_pass}
use multi_tenants.Controllers.Settled.{IsSettled, pass-settled}

module _ {W : Type 0} (p : Platform W) (c : TenantController) (lookup : Lookup W)
    (lawful : IsLawfulPlatform p lookup) where
  -- The mark Ready does not touch the mark Provisioned.
  needs_provision-ready :
      (now : Time) (u : Tenant)
      → IsUnique (get_conditions u)
      → needs_provision p c (mark_ready p c lookup lawful now u) ≡ needs_provision p c u
  unfolding needs_provision tenant_setter string_eq
  needs_provision-ready now u unique =
      rw
        (
          needs_provision,
          has-marked p lookup lawful true now u tenant_condition_ready "Success" "Ready" unique
              tenant_condition_provisioned,
          is_false-marked p lookup lawful true now u tenant_condition_ready "Success" "Ready" unique
              tenant_condition_provisioned,
        )
        refl

  -- A tenant that was just marked Ready, with the phase set from its conditions.
  ready-IsSettled :
      (t u : Tenant) (now : Time)
      → u.object_meta ≡ t.object_meta
      → holds p c lawful.machinery t tenant_finalizer ≡ true
      → is_deleting t.object_meta.deletion_timestamp ≡ false
      → IsUnique (get_conditions u)
      → needs_provision p c u ≡ false
      → IsSettled p c lookup lawful (with_phase "Ready" (mark_ready p c lookup lawful now u))
  unfolding needs_provision has is_false get get_conditions tenant_setter
  ready-IsSettled t u now same there live unique enough = record {
    held = ap (λ o. p.machinery.contains_finalizer o.finalizers tenant_finalizer) meta ∙ there;
    live = ap (λ o. is_deleting o.deletion_timestamp) meta ∙ live;
    ordered =
        marked-IsOrdered p lookup lawful true now u tenant_condition_ready "Success" "Ready" unique;
    enough = needs_provision-ready now u unique ∙ enough;
    ready =
        get-mark_true tenant_setter-IsLawfulSetter p.machinery lawful.machinery p.sort_slice
          lawful.sorter now u refl unique tenant_condition_ready "Success" "Ready";
    shown = refl;
  }
    where
      meta : (mark_ready p c lookup lawful now u).object_meta ≡ t.object_meta
      meta =
          marked-object_meta p lookup lawful true now u tenant_condition_ready "Success" "Ready"
          ∙ same

  -- What a pass leaves whose steps all succeed.
  healthy-IsSettled :
      (t : Tenant) (w : W)
      → holds p c lawful.machinery t tenant_finalizer ≡ true
      → is_deleting t.object_meta.deletion_timestamp ≡ false
      → IsUnique (get_conditions t)
      → IsHealthy p c lookup lawful t w
      → ((handle_tenant p c t w).result ≡ ok no_requeue)
        × IsSettled p c lookup lawful (pass p c lawful.machinery t w)
  healthy-IsSettled t w there live unique h =
      let (u, time, x, end, same, kept) = healthy_end p c lookup lawful t w h in
      let run = handle_tenant-normal p c lawful.machinery t w there live ∙ end in
      (
        ap (λ y. y.result) run,
        subst (IsSettled p c lookup lawful)
            (sym (
              left u time (ap (λ y. y.tenant) run)
                (marked-ready p c lookup lawful t u time same live (kept unique).0)))
            (ready-IsSettled t u time same there live (kept unique).0 (kept unique).1),
      )
    where
      left :
          (u : Tenant) (time : Time)
          → (handle_tenant p c t w).tenant ≡ mark_ready p c lookup lawful time u
          → expected_phase (mark_ready p c lookup lawful time u) ≡ "Ready"
          → pass p c lawful.machinery t w ≡ with_phase "Ready" (mark_ready p c lookup lawful time u)
      left u time e phase =
          ap (λ y. reconcile_phase p.machinery y) e
          ∙ reconcile_phase-priority p.machinery lawful.machinery _
          ∙ ap (λ s. with_phase s (mark_ready p c lookup lawful time u)) phase

  -- A tenant that has the finalizer and is not deleted comes to rest in one pass whose steps all
  -- succeed, whatever failed before: the handler asks for no other run, the phase is Ready, and
  -- no later pass changes the tenant, whatever its calls return. No condition type stands twice
  -- before. The code outside behaves as documented.
  pub healthy_pass_settles :
      (t : Tenant) (w : W)
      → holds p c lawful.machinery t tenant_finalizer ≡ true
      → is_deleting t.object_meta.deletion_timestamp ≡ false
      → IsUnique (get_conditions t)
      → IsHealthy p c lookup lawful t w
      → ((handle_tenant p c t w).result ≡ ok no_requeue)
        × ((pass p c lawful.machinery t w).status.phase ≡ "Ready")
        × ((later : W)
            → pass p c lawful.machinery (pass p c lawful.machinery t w) later
              ≡ pass p c lawful.machinery t w)
  healthy_pass_settles t w there live unique h =
      let (done, settled) = healthy-IsSettled t w there live unique h in
      (done, settled.shown, pass-settled p c lookup lawful _ settled)

  -- A tenant that is not deleted and does not have the finalizer shows the phase Ready after two
  -- passes and is changed by no later pass, whatever the calls of that return, if the steps of
  -- the second all succeed: the namespace, the provisioning where it is needed, and the checks
  -- of both deployments. No condition type stands twice before. The code outside behaves as
  -- documented.
  pub settles_in_two_passes :
      (t : Tenant) (w w' : W)
      → holds p c lawful.machinery t tenant_finalizer ≡ false
      → is_deleting t.object_meta.deletion_timestamp ≡ false
      → IsUnique (get_conditions t)
      → IsHealthy p c lookup lawful (pass p c lawful.machinery t w) w'
      → (let ready = pass p c lawful.machinery (pass p c lawful.machinery t w) w' in
          (ready.status.phase ≡ "Ready")
          × ((later : W) → pass p c lawful.machinery ready later ≡ ready))
  settles_in_two_passes t w w' absent live unique h =
      let (there, alive, still) = first_pass p c lookup lawful t w absent live unique in
      let (_, shown, rests) = healthy_pass_settles _ w' there alive still h in (shown, rests)
