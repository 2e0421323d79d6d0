-- ===== src/Controllers/Invariant.antt =====
-- What holds of a tenant and the host cluster in every state that the reconciler
-- (tenant_controller.go) can reach.
use mathlib.Core.Bool.{false≢true}
use multi_tenants.Base.{
  string_equal, String, Bool, true, false, not, ◌||◌, ◌≡◌, refl, sym, ◌∙◌, ap, subst, Option, none,
  some, ◌==◌, string_eq,
}
use multi_tenants.Api.{
  Time, Condition, Tenant, tenant_condition_provisioned, tenant_condition_ready, condition_true,
  condition_false, get_conditions,
}
use multi_tenants.Conditions.{get, has, is_true, is_false}
use multi_tenants.Conditions.TenantConditions.{tenant_setter}
use multi_tenants.Conditions.Reading.{IsUnique}
use multi_tenants.Client.Server.{Lookup}
use multi_tenants.Controllers.Setup.{Platform, TenantController}
use multi_tenants.Controllers.Normal.{needs_provision}
use multi_tenants.Controllers.Ownership.{OwnedKeeps}
use multi_tenants.Controllers.Footprint.{IsLawfulPlatform}
use multi_tenants.Controllers.Completeness.{IsProvisioned}
use multi_tenants.Controllers.Persistence.{IsProvisioned-OwnedKeeps, IsProvisioned-meta}
use multi_tenants.Controllers.Marks.{
  marked, marked-object_meta, marked-phase, marked-IsOrdered, is_true-marked, is_false-marked,
}
use multi_tenants.Controllers.Handling.{IsHandled, mark_failed, mark_provisioned, mark_ready}

abbrev P : String
P = tenant_condition_provisioned

abbrev R : String
R = tenant_condition_ready

true_not_false : (s : String) → (s == condition_true) ≡ true → (s == condition_false) ≡ false
unfolding string_eq
true_not_false s h =
    subst (λ x. (x == condition_false) ≡ false) (sym (string_equal s condition_true h)) refl

or_true : (b : Bool) → (b || true) ≡ true
or_true true = refl
or_true false = refl

module _ {W : Type 0} (p : Platform W) (c : TenantController) (lookup : Lookup W)
    (lawful : IsLawfulPlatform p lookup) where
  -- The conditions are in order, they say what is there, and the phase says no more than they do.
  pub record IsConsistent (u : Tenant) (w : W) : Type 0 where
    pub unique : IsUnique (get_conditions u)
    pub decided : needs_provision p c u ≡ false → is_true u tenant_condition_provisioned ≡ true
    pub provisioned :
        is_true u tenant_condition_provisioned ≡ true → IsProvisioned p c lookup lawful u w
    pub ready :
        is_true u tenant_condition_ready ≡ true → is_true u tenant_condition_provisioned ≡ true
    pub shown : u.status.phase ≡ "Ready" → is_true u tenant_condition_ready ≡ true

  pub OwnedKeeps-under :
      (t : Tenant) (Q R : W → Type 0)
      → ((w w' : W) → (Q w → Q w') → R w → R w')
      → OwnedKeeps p t Q
      → OwnedKeeps p t R
  OwnedKeeps-under t Q R f h = record {
    crypto = record {
      now = λ w. f w _ (h.crypto.now w);
      generate_key = λ bits. record { run = λ w. f w _ ((h.crypto.generate_key bits).run w) };
      create_certificate =
          λ a b key s. record { run = λ w. f w _ ((h.crypto.create_certificate a b key s).run w) };
    };
    get = λ k key. record { run = λ w. f w _ ((h.get k key).run w) };
    create = λ k o own. record { run = λ w. f w _ ((h.create k o own).run w) };
  }

  pub IsConsistent-world :
      (u : Tenant) (w w' : W)
      → (IsProvisioned p c lookup lawful u w → IsProvisioned p c lookup lawful u w')
      → IsConsistent u w
      → IsConsistent u w'
  IsConsistent-world u w w' f h = record {
    unique = h.unique;
    decided = h.decided;
    provisioned = λ e. f (h.provisioned e);
    ready = h.ready;
    shown = h.shown;
  }

  -- A tenant that is provisioned needs it no more.
  pub provisioned_enough :
      (u : Tenant) → is_true u tenant_condition_provisioned ≡ true → needs_provision p c u ≡ false
  unfolding needs_provision is_true is_false has
  provisioned_enough u h = by_condition (get u P) h
    where
      by_condition :
          (o : Option Condition)
          → elim o [ some x ↦ x.status == condition_true | none ↦ false ] ≡ true
          → (not (elim o [ some _ ↦ true | none ↦ false ])
              || elim o [ some x ↦ x.status == condition_false | none ↦ false ])
            ≡ false
      by_condition none q = cc
      by_condition (some x) q = true_not_false x.status q

  -- A mark of one of the two types, true or false, on a consistent tenant.
  module _ (b : Bool) (now : Time) (u : Tenant) (w : W) (h : IsConsistent u w)
      (reason message : String) where
    abbrev mark : String → Tenant
    mark type = marked p lookup lawful b now u type reason message

    same_name : (type : String) → u.object_meta.name ≡ (mark type).object_meta.name
    same_name type =
        sym (ap (λ o. o.name) (marked-object_meta p lookup lawful b now u type reason message))

    mark-shown : (type : String) → ((mark type).status.phase ≡ "Ready" → u.status.phase ≡ "Ready")
    mark-shown type e = sym (marked-phase p lookup lawful b now u type reason message) ∙ e

    provision-true : is_true (mark P) P ≡ b
    unfolding string_eq
    provision-true = is_true-marked p lookup lawful b now u P reason message h.unique P

    provision-false : is_false (mark P) P ≡ not b
    unfolding string_eq
    provision-false = is_false-marked p lookup lawful b now u P reason message h.unique P

    provision-ready : is_true (mark P) R ≡ is_true u R
    unfolding string_eq
    provision-ready = is_true-marked p lookup lawful b now u P reason message h.unique R

    ready-true : is_true (mark R) P ≡ is_true u P
    unfolding string_eq
    ready-true = is_true-marked p lookup lawful b now u R reason message h.unique P

    ready-ready : is_true (mark R) R ≡ b
    unfolding string_eq
    ready-ready = is_true-marked p lookup lawful b now u R reason message h.unique R

  failed-needs :
      (now : Time) (u : Tenant) (w : W)
      → IsConsistent u w
      → needs_provision p c (mark_failed p c lookup lawful now u) ≡ true
  unfolding needs_provision
  failed-needs now u w h =
      rw (needs_provision, provision-false false now u w h "Failed" "Failed to handle phase")
        (or_true _)

  mark_failed-IsConsistent :
      (now : Time) (u : Tenant) (w : W)
      → needs_provision p c u ≡ true
      → IsConsistent u w
      → IsConsistent (mark_failed p c lookup lawful now u) w
  mark_failed-IsConsistent now u w needs h = record {
    unique = (marked-IsOrdered p lookup lawful false now u P reason message h.unique).1;
    decided = λ e. absurd (false≢true (sym e ∙ failed-needs now u w h));
    provisioned =
        λ e. absurd (false≢true (sym (provision-true false now u w h reason message) ∙ e));
    ready = λ e. absurd (unready (sym (provision-ready false now u w h reason message) ∙ e));
    shown = λ e.
        provision-ready false now u w h reason message
        ∙ h.shown (mark-shown false now u w h reason message P e);
  }
    where
      reason : String
      reason = "Failed"

      message : String
      message = "Failed to handle phase"

      unready : is_true u R ≡ true → ⊥
      unready e = false≢true (sym (provisioned_enough u (h.ready e)) ∙ needs)

  mark_provisioned-IsConsistent :
      (now : Time) (u : Tenant) (w : W)
      → IsProvisioned p c lookup lawful u w
      → IsConsistent u w
      → IsConsistent (mark_provisioned p c lookup lawful now u) w
  mark_provisioned-IsConsistent now u w there h = record {
    unique = (marked-IsOrdered p lookup lawful true now u P reason message h.unique).1;
    decided = λ _. provision-true true now u w h reason message;
    provisioned = λ _.
        IsProvisioned-meta p c lookup lawful _ u w (same_name true now u w h reason message P)
          there;
    ready = λ _. provision-true true now u w h reason message;
    shown = λ e.
        provision-ready true now u w h reason message
        ∙ h.shown (mark-shown true now u w h reason message P e);
  }
    where
      reason : String
      reason = "Success"

      message : String
      message = "Success to provision"

  mark_ready-IsConsistent :
      (now : Time) (u : Tenant) (w : W)
      → needs_provision p c u ≡ false
      → IsConsistent u w
      → IsConsistent (mark_ready p c lookup lawful now u) w
  mark_ready-IsConsistent now u w still h = record {
    unique = (marked-IsOrdered p lookup lawful true now u R reason message h.unique).1;
    decided = λ _. ready-true true now u w h reason message ∙ h.decided still;
    provisioned = λ _.
        IsProvisioned-meta p c lookup lawful _ u w (same_name true now u w h reason message R)
          (h.provisioned (h.decided still));
    ready = λ _. ready-true true now u w h reason message ∙ h.decided still;
    shown = λ _. ready-ready true now u w h reason message;
  }
    where
      reason : String
      reason = "Success"

      message : String
      message = "Ready"

  pub IsConsistent-IsHandled : (t : Tenant) → IsHandled p c lookup lawful t IsConsistent
  IsConsistent-IsHandled t = record {
    calls = λ u.
        OwnedKeeps-under t (IsProvisioned p c lookup lawful u) (IsConsistent u)
          (IsConsistent-world u) (IsProvisioned-OwnedKeeps p c lookup lawful u t);
    failed = λ now w needs h. mark_failed-IsConsistent now t w needs h;
    provisioned = λ now w needs there h. mark_provisioned-IsConsistent now t w there h;
    ready = mark_ready-IsConsistent;
    unique = λ w h. h.unique;
  }
