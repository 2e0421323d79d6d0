-- ===== src/Conditions/Order.antt =====
-- `lexicographicLess` (setter.go) is an order by which `sort.Slice` can sort, and what sorting by
-- such an order promises.
use mathlib.Core.List.{Perm}
use multi_tenants.Base.{
  Bool, true, false, ◌≡◌, ◌≢◌, List, [], ◌∷◌, arith, All, str_lt_trans, str_lt_irrefl, str_lt_total,
  string_eq,
}
use multi_tenants.Api.{Condition}
use multi_tenants.Conditions.Set.{Sorter, lexicographic_less}

-- What `sort.Slice` asks of its `less`: a strict order, in which neither-is-less is transitive.
pub record IsStrictWeak (less : Condition → Condition → Bool) : Type 0 where
  pub irrefl : (a : Condition) → less a a ≡ false
  pub trans : (a b c : Condition) → less a b ≡ true → less b c ≡ true → less a c ≡ true
  pub level :
      (a b c : Condition)
      → less a b ≡ false
      → less b a ≡ false
      → less b c ≡ false
      → less c b ≡ false
      → less a c ≡ false

abbrev pub IsSorted : (Condition → Condition → Bool) → List Condition → Type 0
IsSorted less [] = Unit
IsSorted less (c ∷ cs) = All (λ d. less d c ≡ false) cs × IsSorted less cs

-- The documented behaviour of `sort.Slice`; the order among equal elements is left open.
pub record IsLawfulSorter (sort_slice : Sorter) : Type 0 where
  pub sort-perm :
      (less : Condition → Condition → Bool) (cs : List Condition)
      → IsStrictWeak less
      → Perm (sort_slice less cs) cs
  pub sort-IsSorted :
      (less : Condition → Condition → Bool) (cs : List Condition)
      → IsStrictWeak less
      → IsSorted less (sort_slice less cs)

pub lexicographic_less_trans :
    (a b c : Condition)
    → lexicographic_less a b ≡ true
    → lexicographic_less b c ≡ true
    → lexicographic_less a c ≡ true
unfolding lexicographic_less
lexicographic_less_trans a b c p q = ground (arith, str_lt_trans a.type b.type c.type)

lexicographic_less_irrefl : (a : Condition) → lexicographic_less a a ≡ false
unfolding lexicographic_less
lexicographic_less_irrefl a = ground (arith, str_lt_irrefl a.type)

-- Conditions that the order does not tell apart have one type.
pub lexicographic_less_total :
    (a b : Condition)
    → lexicographic_less a b ≡ false
    → lexicographic_less b a ≡ false
    → a.type ≡ b.type
unfolding lexicographic_less
lexicographic_less_total a b p q = ground (arith, str_lt_total a.type b.type)

lexicographic_less_of_type :
    (a b c : Condition) → b.type ≡ c.type → lexicographic_less a b ≡ lexicographic_less a c
unfolding lexicographic_less
lexicographic_less_of_type a b c p = rw p

-- lexicographicLess is a strict weak order, as sort.Slice asks: irreflexive, transitive, and
-- with neither-is-less transitive.
pub lexicographic_less-IsStrictWeak : IsStrictWeak lexicographic_less
lexicographic_less-IsStrictWeak = record {
  irrefl = lexicographic_less_irrefl;
  trans = lexicographic_less_trans;
  level = λ a b c p q r s.
      ground (arith, lexicographic_less_of_type a b c (lexicographic_less_total b c r s));
}

-- The Ready condition is below every other, and nothing is below it.
pub ready_first :
    (a b : Condition)
    → a.type ≡ "Ready"
    → (lexicographic_less b a ≡ false) × (b.type ≢ "Ready" → lexicographic_less a b ≡ true)
unfolding lexicographic_less
ready_first a b p = ground arith
