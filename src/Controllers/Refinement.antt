-- ===== src/Controllers/Refinement.antt =====
-- Passes of the reconciler (tenant_controller.go) against the abstract machine of Stages.
use multi_tenants.Base.{
  string_same, String, Bool, true, false, ◌≡◌, refl, ◌∙◌, ap, inl, inr, Bool-cases, arith, ◌==◌,
  string_eq, if◌then◌else◌,
}
use multi_tenants.Api.{Tenant, TenantPhase, is_phase, get_conditions}
use multi_tenants.Conditions.{get, is_true, is_false}
use multi_tenants.Conditions.TenantConditions.{tenant_setter}
use multi_tenants.Conditions.Reading.{IsUnique}
use multi_tenants.Client.Server.{Lookup}
use multi_tenants.Controllers.Setup.{Platform, TenantController}
use multi_tenants.Controllers.PhaseLaws.{is_deleting, expected_phase, reconcile_phase-priority}
use multi_tenants.Controllers.Normal.{reconcile_normal}
use multi_tenants.Controllers.Reconcile.{tenant_finalizer, set_finalizers, handle_tenant}
use multi_tenants.Controllers.Footprint.{IsLawfulPlatform}
use multi_tenants.Controllers.Ahead.{IsAhead, reconcile_normal-IsAhead}
use multi_tenants.Controllers.Lifecycle.{
  with_phase, holds, pass, handle_tenant-normal, pass_terminates, pass_releases,
}
use multi_tenants.Controllers.Stages.{Stage, Move, progress, stage_of, stage}

module _ {W : Type 0} (p : Platform W) (c : TenantController) (lookup : Lookup W)
    (lawful : IsLawfulPlatform p lookup) where
  open p use {machinery}

  abbrev deleting : Tenant → Bool
  deleting u = is_deleting u.object_meta.deletion_timestamp

  abbrev held : Tenant → Bool
  held u = holds p c lawful.machinery u tenant_finalizer

  abbrev next : Tenant → W → Tenant
  next t w = pass p c lawful.machinery t w

  abbrev gone_text : String
  gone_text = "Terminating"

  stage_at :
      (u : Tenant) (d h l : Bool)
      → deleting u ≡ d
      → held u ≡ h
      → is_phase u.status TenantPhase.terminating ≡ l
      → stage machinery u ≡ stage_of d h l (progress u)
  unfolding stage
  stage_at u d h l ed eh el = rw (stage, ed, eh, el) refl

  -- The phase is part of the stage only where a tenant is deleted.
  stage-with_phase :
      (phase : String) (u : Tenant) (h : Bool)
      → held u ≡ h
      → stage machinery (with_phase phase u)
        ≡ stage_of (deleting u) h (phase == "Terminating") (progress u)
  unfolding stage is_phase progress is_true is_false get get_conditions tenant_setter
  stage-with_phase phase u h eh = rw (stage, eh) refl

  stage-next :
      (t u : Tenant) (w : W) (d h : Bool)
      → (handle_tenant p c t w).tenant ≡ u
      → deleting u ≡ d
      → held u ≡ h
      → stage machinery (next t w) ≡ stage_of d h (expected_phase u == "Terminating") (progress u)
  stage-next t u w d h e ed eh =
      ap (λ x. stage machinery x)
        (reconcile_phase-priority machinery lawful.machinery (handle_tenant p c t w).tenant)
      ∙ ap (λ x. stage machinery (with_phase (expected_phase x) x)) e
      ∙ stage-with_phase (expected_phase u) u h eh
      ∙ ap (λ x. stage_of x h (expected_phase u == "Terminating") (progress u)) ed

  deleting_phase : (u : Tenant) → deleting u ≡ true → (expected_phase u == "Terminating") ≡ true
  unfolding expected_phase string_eq
  deleting_phase u e = rw (expected_phase, e) refl

  abbrev pub added : (t : Tenant) → Tenant
  added t = set_finalizers (machinery.add_finalizer t.object_meta.finalizers tenant_finalizer) t

  pub added-held : (t : Tenant) → held (added t) ≡ true
  added-held t =
      lawful.machinery.contains-add t.object_meta.finalizers tenant_finalizer tenant_finalizer
      ∙ ap (λ b. if b then true else held t) (string_same tenant_finalizer)

  pub handle_tenant-absent :
      (t : Tenant) (w : W) → held t ≡ false → (handle_tenant p c t w).tenant ≡ added t
  unfolding handle_tenant
  handle_tenant-absent t w absent = rw absent refl

  added-deleting : (t : Tenant) → deleting (added t) ≡ deleting t
  added-deleting t = refl

  added-progress : (t : Tenant) → progress (added t) ≡ progress t
  unfolding progress is_true is_false get get_conditions tenant_setter
  added-progress t = refl

  pass-Move_claim :
      (t : Tenant) (w : W)
      → held t ≡ false
      → deleting t ≡ false
      → Move (stage machinery t) (stage machinery (next t w))
  pass-Move_claim t w absent live =
      rw
        (
          stage_at t false false _ live absent refl,
          stage-next t (added t) w false true (handle_tenant-absent t w absent)
              (added-deleting t ∙ live) (added-held t),
          added-progress t,
        )
        (Move.claim _)

  pass-Move_reclaim :
      (t : Tenant) (w : W)
      → held t ≡ false
      → deleting t ≡ true
      → Move (stage machinery t) (stage machinery (next t w))
  pass-Move_reclaim t w absent gone =
      rw
        (
          stage_at t true false _ gone absent refl,
          stage-next t (added t) w true true (handle_tenant-absent t w absent)
              (added-deleting t ∙ gone) (added-held t),
          deleting_phase (added t) (added-deleting t ∙ gone),
        )
        Move.reclaim

  pass-Move_work :
      (t : Tenant) (w : W)
      → held t ≡ true
      → deleting t ≡ false
      → IsUnique (get_conditions t)
      → Move (stage machinery t) (stage machinery (next t w))
  pass-Move_work t w there live unique =
      rw
        (
          stage_at t false true _ live there refl,
          stage-next t u w false true
              (ap (λ x. x.tenant) (handle_tenant-normal p c lawful.machinery t w there live))
              (ap (λ o. is_deleting o.deletion_timestamp) ahead.object_meta ∙ live)
              (ap (λ o. machinery.contains_finalizer o.finalizers tenant_finalizer)
                  ahead.object_meta
                ∙ there),
        )
        (Move.work _ _ ahead.further)
    where
      u : Tenant
      u = (reconcile_normal p c t w).tenant

      ahead : IsAhead p c lookup lawful t u
      ahead = reconcile_normal-IsAhead p c lookup lawful t w unique

  pass-Move_condemn :
      (t : Tenant) (w : W)
      → held t ≡ true
      → deleting t ≡ true
      → is_phase t.status TenantPhase.terminating ≡ false
      → Move (stage machinery t) (stage machinery (next t w))
  pass-Move_condemn t w there gone early =
      rw
        (
          stage_at t true true false gone there early,
          (pass_terminates p c lawful.machinery t w there gone early).1,
          stage-with_phase "Terminating" t true there,
          gone,
          string_same "Terminating",
        )
        Move.condemn

  abbrev removed : (t : Tenant) → Tenant
  removed t =
      set_finalizers (machinery.remove_finalizer t.object_meta.finalizers tenant_finalizer) t

  removed-held : (t : Tenant) → held (removed t) ≡ false
  removed-held t =
      lawful.machinery.contains-remove t.object_meta.finalizers tenant_finalizer tenant_finalizer
      ∙ ap (λ b. if b then false else held t) (string_same tenant_finalizer)

  phase_text_of :
      (t : Tenant)
      → is_phase t.status TenantPhase.terminating ≡ true
      → t.status.phase ≡ "Terminating"
  unfolding is_phase
  phase_text_of t late = ground arith

  stage-removed :
      (t : Tenant)
      → deleting t ≡ true
      → stage machinery (with_phase "Terminating" (removed t)) ≡ Stage.released
  stage-removed t gone =
      stage-with_phase "Terminating" (removed t) false (removed-held t)
      ∙ ap (λ b. stage_of b false (gone_text == gone_text) (progress (removed t))) gone

  pass-Move_release :
      (t : Tenant) (w : W)
      → held t ≡ true
      → deleting t ≡ true
      → is_phase t.status TenantPhase.terminating ≡ true
      → Move (stage machinery t) (stage machinery (next t w))
  pass-Move_release t w there gone late =
      rw
        (
          stage_at t true true true gone there late,
          (pass_releases p c lawful.machinery t w there gone (phase_text_of t late)).1,
          stage-removed t gone,
        )
        Move.release

  -- Every pass of the reconciler over a tenant is a move of the abstract machine: an unclaimed
  -- tenant is claimed, one that is worked on gets no less far (waiting, failing, provisioned,
  -- ready), a deleted one becomes Terminating, is let go after that, and is claimed again when
  -- it is still there. No condition type stands twice before. The code outside behaves as
  -- documented.
  pub pass-Move :
      (t : Tenant) (w : W)
      → IsUnique (get_conditions t)
      → Move (stage machinery t) (stage machinery (next t w))
  pass-Move t w unique = elim (Bool-cases (held t)) [
    | inr absent ↦ elim (Bool-cases (deleting t)) [
      | inr live ↦ pass-Move_claim t w absent live
      | inl gone ↦ pass-Move_reclaim t w absent gone
    ]
    | inl there ↦ elim (Bool-cases (deleting t)) [
      | inr live ↦ pass-Move_work t w there live unique
      | inl gone ↦ elim (Bool-cases (is_phase t.status TenantPhase.terminating)) [
        | inl late ↦ pass-Move_release t w there gone late
        | inr early ↦ pass-Move_condemn t w there gone early
      ]
    ]
  ]
