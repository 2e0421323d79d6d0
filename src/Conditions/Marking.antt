-- ===== src/Conditions/Marking.antt =====
-- What `IsTrue`, `IsFalse` and `Has` (getter.go) say after a condition is marked (setter.go).
use multi_tenants.Base.{
  String, Bool, true, false, not, ◌≡◌, refl, ◌∙◌, ap, string_same, Option, none, some, arith, ◌==◌,
  string_eq, if◌then◌else◌,
}
use multi_tenants.Api.{
  Time, Condition, Machinery, IsLawfulMachinery, condition_true, condition_false,
}
use multi_tenants.Conditions.Get.{Setter, get, has, is_true, is_false}
use multi_tenants.Conditions.Set.{
  Sorter, truncate_to_second, has_same_state, set, mark_true, mark_false, true_condition,
  false_condition, new_condition,
}
use multi_tenants.Conditions.Order.{IsLawfulSorter}
use multi_tenants.Conditions.Reading.{IsUnique}
use multi_tenants.Conditions.Writing.{IsLawfulSetter, settled}
use multi_tenants.Conditions.Laws.{IsOrdered, get-set_lem, set-IsOrdered}

abbrev has_status : String → Option Condition → Bool
has_status s (some c) = c.status == s
has_status s none = false

settled-status :
    (now : Time) (o : Option Condition) (c : Condition) → (settled now o c).status ≡ c.status
unfolding has_same_state
settled-status now none c = ground arith
settled-status now (some x) c = ground arith

-- What is stored has the state of what was set.
settled-same_state :
    (now : Time) (o : Option Condition) (c : Condition) → has_same_state (settled now o c) c ≡ true
unfolding has_same_state
settled-same_state now none c = ground arith
settled-same_state now (some x) c = ground arith

either_status :
    (s : String) (b : Bool) (c x : Condition) (o : Option Condition)
    → x.status ≡ c.status
    → has_status s (if b then some x else o) ≡ (if b then c.status == s else has_status s o)
either_status s true c x o e = rw e refl
either_status s false c x o e = refl

either_some :
    (b : Bool) (x : Condition) (o : Option Condition)
    → elim (if b then some x else o) [ some _ ↦ true | none ↦ false ]
      ≡ (if b then true else elim o [ some _ ↦ true | none ↦ false ])
either_some true x o = refl
either_some false x o = refl

module _ {A : Type 0} ⦃s : Setter A⦄ (setter : IsLawfulSetter s) (m : Machinery)
    (machinery : IsLawfulMachinery m) (sort : Sorter) (sorter : IsLawfulSorter sort) (now : Time)
    (to : A) (live : s.is_nil to ≡ false) (unique : IsUnique (s.get_conditions to)) where
  status-set :
      (status : String) (c : Condition) (t : String)
      → has_status status (get (set m sort now to (some c)).0 t)
        ≡ (if c.type == t then c.status == status else has_status status (get to t))
  status-set status c t =
      rw (get-set_lem setter m machinery sort sorter now to c t live unique)
        (either_status status (c.type == t) c _ _ (settled-status _ _ c))

  has-set :
      (c : Condition) (t : String)
      → has (set m sort now to (some c)).0 t ≡ (if c.type == t then true else has to t)
  unfolding has
  has-set c t =
      rw (has, get-set_lem setter m machinery sort sorter now to c t live unique)
        (either_some (c.type == t) _ (get to t))

  get-set_state :
      (c : Condition)
      → (x : Condition) × ((get (set m sort now to (some c)).0 c.type ≡ some x)
          × (has_same_state x c ≡ true))
  get-set_state c = (
    _,
    (
      get-set_lem setter m machinery sort sorter now to c c.type live unique
          ∙ ap
              (λ b.
                if b
                then some (settled (truncate_to_second now) (get to c.type) c)
                else get to c.type)
              (string_same c.type),
      settled-same_state _ (get to c.type) c,
    ),
  )

  -- The mark of a type with a status, by `MarkTrue` or `MarkFalse`.
  abbrev pub marked : Bool → String → String → String → A
  marked b type reason message =
      if b
      then mark_true m sort now to type reason message
      else mark_false m sort now to type reason message

  module _ (type reason message : String) where
    pub is_true-marked :
        (b : Bool) (t : String)
        → is_true (marked b type reason message) t ≡ (if type == t then b else is_true to t)
    unfolding is_true mark_true mark_false true_condition false_condition string_eq
    is_true-marked true t =
        status-set condition_true (new_condition type condition_true reason message) t
    is_true-marked false t =
        status-set condition_true (new_condition type condition_false reason message) t

    pub is_false-marked :
        (b : Bool) (t : String)
        → is_false (marked b type reason message) t ≡ (if type == t then not b else is_false to t)
    unfolding is_false mark_true mark_false true_condition false_condition string_eq
    is_false-marked true t =
        status-set condition_false (new_condition type condition_true reason message) t
    is_false-marked false t =
        status-set condition_false (new_condition type condition_false reason message) t

    pub has-marked :
        (b : Bool) (t : String)
        → has (marked b type reason message) t ≡ (if type == t then true else has to t)
    unfolding mark_true mark_false true_condition false_condition
    has-marked true t = has-set (new_condition type condition_true reason message) t
    has-marked false t = has-set (new_condition type condition_false reason message) t

    pub marked-IsOrdered : (b : Bool) → IsOrdered (s.get_conditions (marked b type reason message))
    unfolding mark_true mark_false true_condition false_condition
    marked-IsOrdered true = set-IsOrdered setter m machinery sort sorter now to _ live unique
    marked-IsOrdered false = set-IsOrdered setter m machinery sort sorter now to _ live unique

    -- The mark that `MarkTrue` leaves has the state that it was given.
    pub get-mark_true :
        (x : Condition) × ((get (mark_true m sort now to type reason message) type ≡ some x)
          × (has_same_state x (new_condition type condition_true reason message) ≡ true))
    unfolding mark_true true_condition
    get-mark_true = get-set_state (new_condition type condition_true reason message)
