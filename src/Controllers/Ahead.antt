-- ===== src/Controllers/Ahead.antt =====
-- How far a run of `reconcileNormal` (tenant_controller.go) takes a tenant.
use mathlib.Core.Bool.{false≢true}
use multi_tenants.Base.{
  ◌≤◌, String, Bool, true, false, not, ◌≡◌, refl, sym, ◌∙◌, subst, inl, inr, Bool-cases, arith,
  string_eq,
}
use multi_tenants.Api.{
  Time, Tenant, get_conditions, tenant_condition_provisioned, tenant_condition_ready,
}
use multi_tenants.Conditions.{is_true}
use multi_tenants.Conditions.TenantConditions.{tenant_setter}
use multi_tenants.Conditions.Reading.{IsUnique}
use multi_tenants.Client.Server.{Lookup}
use multi_tenants.Controllers.Setup.{Platform, TenantController}
use multi_tenants.Controllers.Normal.{needs_provision, reconcile_normal}
use multi_tenants.Controllers.Ownership.{OwnedKeeps}
use multi_tenants.Controllers.Footprint.{IsLawfulPlatform}
use multi_tenants.Controllers.Marks.{
  marked, marked-object_meta, marked-IsOrdered, is_true-marked, is_false-marked,
}
use multi_tenants.Controllers.Handling.{IsHandled, reconcile_normal-Holds}
use multi_tenants.Controllers.Invariant.{provisioned_enough}
use multi_tenants.Controllers.Stages.{Progress, rank, progress_of, progress}

rank_ready : (a : Progress) → rank a ≤ rank Progress.ready
rank_ready Progress.waiting = omega arith
rank_ready Progress.failing = omega arith
rank_ready Progress.provisioned = omega arith
rank_ready Progress.ready = omega arith

rank_provisioned : (r p f : Bool) → rank (progress_of r p f) ≤ rank (progress_of r true false)
rank_provisioned r p f = ground arith

rank_failing : (r f : Bool) → rank (progress_of r false f) ≤ rank (progress_of r false true)
rank_failing r f = ground arith

module _ {W : Type 0} (p : Platform W) (c : TenantController) (lookup : Lookup W)
    (lawful : IsLawfulPlatform p lookup) where
  module _ (b : Bool) (now : Time) (u : Tenant) (reason message : String)
      (unique : IsUnique (get_conditions u)) where
    progress-provision :
        progress (marked p lookup lawful b now u tenant_condition_provisioned reason message)
        ≡ progress_of (is_true u tenant_condition_ready) b (not b)
    unfolding progress string_eq
    progress-provision =
        rw
          (
            progress,
            is_true-marked p lookup lawful b now u tenant_condition_provisioned reason message
                unique tenant_condition_ready,
            is_true-marked p lookup lawful b now u tenant_condition_provisioned reason message
                unique tenant_condition_provisioned,
            is_false-marked p lookup lawful b now u tenant_condition_provisioned reason message
                unique tenant_condition_provisioned,
          )
          refl

    progress-ready :
        b ≡ true
        → progress (marked p lookup lawful b now u tenant_condition_ready reason message)
          ≡ Progress.ready
    unfolding progress string_eq
    progress-ready e =
        rw
          (
            progress,
            is_true-marked p lookup lawful b now u tenant_condition_ready reason message unique
                tenant_condition_ready,
            e,
          )
          refl

  -- A tenant on the way from `t`: of the same metadata, and no less far.
  pub record IsAhead (t u : Tenant) : Type 0 where
    pub object_meta : u.object_meta ≡ t.object_meta
    pub unique : IsUnique (get_conditions u)
    pub further : rank (progress t) ≤ rank (progress u)

  pub constant-OwnedKeeps : (t : Tenant) (P : Type 0) → OwnedKeeps p t (λ _. P)
  constant-OwnedKeeps t P = record {
    crypto = record {
      now = λ w h. h;
      generate_key = λ bits. record { run = λ w h. h };
      create_certificate = λ a b key s. record { run = λ w h. h };
    };
    get = λ k key. record { run = λ w h. h };
    create = λ k o own. record { run = λ w h. h };
  }

  not_provisioned :
      (u : Tenant) → needs_provision p c u ≡ true → is_true u tenant_condition_provisioned ≡ false
  not_provisioned u needs = elim (Bool-cases (is_true u tenant_condition_provisioned)) [
    | inl e ↦ absurd (false≢true (sym (provisioned_enough p c lookup lawful u e) ∙ needs))
    | inr e ↦ e
  ]

  failed-further :
      (u : Tenant)
      → needs_provision p c u ≡ true
      → rank (progress u) ≤ rank (progress_of (is_true u tenant_condition_ready) false true)
  unfolding progress
  failed-further u needs = rw (progress, not_provisioned u needs) (rank_failing _ _)

  provisioned-further :
      (u : Tenant)
      → rank (progress u) ≤ rank (progress_of (is_true u tenant_condition_ready) true false)
  unfolding progress
  provisioned-further u = rank_provisioned _ _ _

  IsAhead-IsHandled : (t : Tenant) → IsHandled p c lookup lawful t (λ u _. IsAhead t u)
  IsAhead-IsHandled t = record {
    calls = λ u. constant-OwnedKeeps t (IsAhead t u);
    failed = λ now w needs h. record {
      object_meta = marked-object_meta p lookup lawful false now t _ _ _;
      unique = (marked-IsOrdered p lookup lawful false now t _ _ _ h.unique).1;
      further =
          subst (λ a. rank (progress t) ≤ rank a)
            (sym (progress-provision false now t _ _ h.unique)) (failed-further t needs);
    };
    provisioned = λ now w needs _ h. record {
      object_meta = marked-object_meta p lookup lawful true now t _ _ _;
      unique = (marked-IsOrdered p lookup lawful true now t _ _ _ h.unique).1;
      further =
          subst (λ a. rank (progress t) ≤ rank a) (sym (progress-provision true now t _ _ h.unique))
            (provisioned-further t);
    };
    ready = λ now u w still h. record {
      object_meta = marked-object_meta p lookup lawful true now u _ _ _ ∙ h.object_meta;
      unique = (marked-IsOrdered p lookup lawful true now u _ _ _ h.unique).1;
      further =
          subst (λ a. rank (progress t) ≤ rank a)
            (sym (progress-ready true now u _ _ h.unique refl)) (rank_ready _);
    };
    unique = λ w h. h.unique;
  }

  pub reconcile_normal-IsAhead :
      (t : Tenant) (w : W)
      → IsUnique (get_conditions t)
      → IsAhead t (reconcile_normal p c t w).tenant
  reconcile_normal-IsAhead t w unique =
      reconcile_normal-Holds p c lookup lawful t (λ u _. IsAhead t u) (IsAhead-IsHandled t) w
        (record { object_meta = refl; unique = unique; further = omega arith })
