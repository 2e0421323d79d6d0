-- ===== src/Conditions/Get.antt =====
-- getter.go.
use multi_tenants.Base.{
  String, Bool, true, false, Option, none, some, List, [], ◌∷◌, ◌==◌, string_eq, if◌then◌else◌,
}
use multi_tenants.Api.{Time, Condition, condition_true, condition_false, condition_unknown}

-- The interfaces `Getter` and `Setter`, with `to == nil` as a test.
pub record Setter (A : Type 0) : Type 0 where
  pub is_nil : A → Bool
  pub get_conditions : A → List Condition
  pub set_conditions : List Condition → A → A

-- The loop of `Get`: the first condition of the type.
unfoldable pub find : List Condition → String → Option Condition
find [] t = none
find (c ∷ cs) t = if c.type == t then some c else find cs t

module _ {A : Type 0} ⦃s : Setter A⦄ where
  unfoldable pub get : A → String → Option Condition
  get from t = find (s.get_conditions from) t

  unfoldable pub has : A → String → Bool
  has from t = elim (get from t) [ some _ ↦ true | none ↦ false ]

  unfoldable pub is_true : A → String → Bool
  is_true from t = elim (get from t) [ some c ↦ c.status == condition_true | none ↦ false ]

  unfoldable pub is_false : A → String → Bool
  is_false from t = elim (get from t) [ some c ↦ c.status == condition_false | none ↦ false ]

  unfoldable pub is_unknown : A → String → Bool
  is_unknown from t = elim (get from t) [ some c ↦ c.status == condition_unknown | none ↦ true ]

  unfoldable pub get_reason : A → String → String
  get_reason from t = elim (get from t) [ some c ↦ c.reason | none ↦ "" ]

  unfoldable pub get_message : A → String → String
  get_message from t = elim (get from t) [ some c ↦ c.message | none ↦ "" ]

  unfoldable pub get_last_transition_time : A → String → Option Time
  get_last_transition_time from t = elim (get from t) [
    | some c ↦ some c.last_transition_time
    | none ↦ none
  ]
