-- ===== src/Conditions/Set.antt =====
-- setter.go. `sort.Slice` is a parameter, since it fixes no order among equal elements, and the
-- reading of the clock is an argument; one that a branch does not use is not observed.
use multi_tenants.Base.{
  ℕ, ◌-◌, ◌%◌, String, Bool, true, false, not, ◌&&◌, ◌||◌, Option, none, some, List, [], ◌∷◌, ◌++◌,
  ◌==◌, ◌!=◌, string_eq, str_lt, if◌then◌else◌,
}
use multi_tenants.Api.{
  Time, Condition, Machinery, condition_true, condition_false, condition_unknown,
}
use multi_tenants.Conditions.Get.{Setter}

-- `sort.Slice`, at conditions.
abbrev pub Sorter : Type 0
Sorter = (Condition → Condition → Bool) → List Condition → List Condition

abbrev second : ℕ
second = 1_000_000_000

-- `metav1.NewTime(now.UTC().Truncate(time.Second))`
unfoldable pub truncate_to_second : Time → Time
truncate_to_second now = now - now % second

unfoldable pub has_same_state : Condition → Condition → Bool
has_same_state i j =
    i.type == j.type && i.status == j.status && i.reason == j.reason && i.message == j.message

unfoldable pub lexicographic_less : Condition → Condition → Bool
lexicographic_less i j = (i.type == "Ready" || str_lt i.type j.type) && j.type != "Ready"

abbrev pub with_time : Time → Condition → Condition
with_time t c = record c { last_transition_time = t }

-- The loop of `Set`: `exists`, `conditions` and `condition` when it ends.
unfoldable pub update_existing :
    Time → List Condition → Condition → Bool × List Condition × Condition
update_existing now [] c = (false, [], c)
update_existing now (x ∷ xs) c =
    let (exists, rest, c') = update_existing now xs c in
    if x.type == c.type
    then if not (has_same_state x c)
      then (true, with_time now c ∷ xs, with_time now c)
      else (true, x ∷ xs, with_time x.last_transition_time c)
    else (exists, x ∷ rest, c')

abbrev pub new_condition : String → String → String → String → Condition
new_condition t status reason message = record {
  type = t;
  status = status;
  last_transition_time = 0;
  reason = reason;
  message = message;
}

unfoldable pub true_condition : String → String → String → Option Condition
true_condition t reason message = some (new_condition t condition_true reason message)

unfoldable pub false_condition : String → String → String → Option Condition
false_condition t reason message = some (new_condition t condition_false reason message)

unfoldable pub unknown_condition : String → String → String → Option Condition
unknown_condition t reason message = some (new_condition t condition_unknown reason message)

-- The loop of `Delete`.
unfoldable pub without : String → List Condition → List Condition
without t [] = []
without t (c ∷ cs) = let rest = without t cs in if c.type != t then c ∷ rest else rest

module _ {A : Type 0} ⦃s : Setter A⦄ where
  unfoldable pub delete : A → String → A
  delete to t = if s.is_nil to then to else s.set_conditions (without t (s.get_conditions to)) to

module _ (m : Machinery) where
  -- The conditions and the condition as `Set` leaves them, before the sort.
  unfoldable pub upsert : Time → List Condition → Condition → List Condition × Condition
  unfolding update_existing
  upsert now conditions c =
      let (exists, conditions', c') = update_existing now conditions c in
      let added = if m.is_zero (some c'.last_transition_time) then with_time now c' else c' in
      if not exists then (conditions' ++ added ∷ [], added) else (conditions', c')

module _ (m : Machinery) (sort_slice : Sorter) where
  module _ {A : Type 0} ⦃s : Setter A⦄ where
    -- `now` is what `time.Now()` returns. The caller's condition is changed too.
    unfoldable pub set : Time → A → Option Condition → A × Option Condition
    unfolding upsert
    set now to none = (to, none)
    set now to (some c) =
        if s.is_nil to
        then (to, some c)
        else (let (conditions, c') = upsert m (truncate_to_second now) (s.get_conditions to) c in
            (s.set_conditions (sort_slice lexicographic_less conditions) to, some c'))

    unfoldable pub mark_true : Time → A → String → String → String → A
    mark_true now to t reason message = (set now to (true_condition t reason message)).0

    unfoldable pub mark_unknown : Time → A → String → String → String → A
    mark_unknown now to t reason message = (set now to (unknown_condition t reason message)).0

    unfoldable pub mark_false : Time → A → String → String → String → A
    mark_false now to t reason message = (set now to (false_condition t reason message)).0
