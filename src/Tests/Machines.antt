-- ===== src/Tests/Machines.antt =====
-- The values that the examples use for apimachinery and for `sort.Slice`.
use mathlib.Core.List.Perm
use mathlib.Core.List.{Perm}
use multi_tenants.Base.{
  String, Bool, true, false, ◌≡◌, refl, Option, none, some, List, [], ◌∷◌, Error, message, foreign,
  arith, ◌==◌, string_eq, inl, inr, Bool-cases, nat_eq, if◌then◌else◌, All,
}
use multi_tenants.Api.{
  Time, Condition, Machinery, IsLawfulMachinery, condition_true, condition_false,
}
use multi_tenants.Conditions.{Sorter}
use multi_tenants.Conditions.Order.{IsStrictWeak, IsSorted, IsLawfulSorter}

not_found_code : Error → Bool
not_found_code (message _) = false
not_found_code (foreign n _) = n == 404

zero_time : Option Time → Bool
zero_time none = true
zero_time (some t) = t == 0

status_is : String → List Condition → String → Bool
status_is s [] t = false
status_is s (c ∷ cs) t = if c.type == t then c.status == s else status_is s cs t

contains : List String → String → Bool
contains [] g = false
contains (f ∷ fs) g = if f == g then true else contains fs g

remove : List String → String → List String
remove [] f = []
remove (x ∷ xs) f = let rest = remove xs f in if x == f then rest else x ∷ rest

contains-remove :
    (fs : List String) (f g : String)
    → contains (remove fs f) g ≡ (if f == g then false else contains fs g)
unfolding contains remove
contains-remove [] f g = ground arith
contains-remove (x ∷ xs) f g = ground (arith, contains-remove xs f g)

unfoldable pub test_machinery : Machinery
unfolding not_found_code zero_time status_is contains remove
test_machinery = record {
  is_not_found = not_found_code;
  new_aggregate = λ before e. e;
  is_zero = zero_time;
  is_status_condition_true = status_is condition_true;
  is_status_condition_false = status_is condition_false;
  contains_finalizer = contains;
  add_finalizer = λ fs f. f ∷ fs;
  remove_finalizer = remove;
}

pub test_machinery-IsLawfulMachinery : IsLawfulMachinery test_machinery
unfolding test_machinery
test_machinery-IsLawfulMachinery = record {
  is_not_found-message = λ s. refl;
  is_zero-none = refl;
  is_zero-some = λ t. refl;
  true-nil = λ t. refl;
  true-cons = λ c cs t. refl;
  false-nil = λ t. refl;
  false-cons = λ c cs t. refl;
  contains-add = λ fs f g. refl;
  contains-remove = contains-remove;
}

insert_sorted : (Condition → Condition → Bool) → Condition → List Condition → List Condition
insert_sorted less x [] = x ∷ []
insert_sorted less x (y ∷ ys) =
    let rest = insert_sorted less x ys in if less y x then y ∷ rest else x ∷ y ∷ ys

unfoldable pub test_sort : Sorter
unfolding insert_sorted
test_sort less [] = []
test_sort less (c ∷ cs) = insert_sorted less c (test_sort less cs)

module _ (less : Condition → Condition → Bool) where
  perm_either :
      (b : Bool) (xs ys zs : List Condition)
      → Perm xs zs
      → Perm ys zs
      → Perm (if b then xs else ys) zs
  perm_either true xs ys zs p q = p
  perm_either false xs ys zs p q = q

  insert-perm : (x : Condition) (ys : List Condition) → Perm (insert_sorted less x ys) (x ∷ ys)
  unfolding insert_sorted
  insert-perm x [] = Perm.refl _
  insert-perm x (y ∷ ys) =
      perm_either (less y x) _ _ _ (Perm.trans (Perm.cons y (insert-perm x ys)) (Perm.swap _ _ _))
        (Perm.refl _)

  sort-perm : (cs : List Condition) → Perm (test_sort less cs) cs
  unfolding test_sort
  sort-perm [] = Perm.refl _
  sort-perm (c ∷ cs) = Perm.trans (insert-perm c (test_sort less cs)) (Perm.cons c (sort-perm cs))

  module _ (weak : IsStrictWeak less) where
    not_less_trans : (d y x : Condition) → less d y ≡ false → less y x ≡ false → less d x ≡ false
    not_less_trans d y x p q =
        ground (arith, weak.trans d x y, weak.trans y d x, weak.level d y x, weak.trans d y x)

    not_less_back : (y x : Condition) → less y x ≡ true → less x y ≡ false
    not_less_back y x p = ground (arith, weak.trans y x y, weak.irrefl y)

    NotBelow : Condition → List Condition → Type 0
    NotBelow x ys = All (λ d. less d x ≡ false) ys

    below_all :
        (y x : Condition) (ys : List Condition) → less y x ≡ false → NotBelow y ys → NotBelow x ys
    unfolding NotBelow
    below_all y x [] q a = tt
    below_all y x (d ∷ ds) q a = (not_less_trans d y x a.0 q, below_all y x ds q a.1)

    insert-NotBelow :
        (y x : Condition) (ys : List Condition)
        → less x y ≡ false
        → NotBelow y ys
        → NotBelow y (insert_sorted less x ys)
    unfolding insert_sorted NotBelow
    insert-NotBelow y x [] h a = (h, tt)
    insert-NotBelow y x (d ∷ ds) h a = elim (Bool-cases (less d x)) [
      | inl t ↦ rw t (a.0, insert-NotBelow y x ds h a.1)
      | inr f ↦ rw f (h, (a.0, a.1))
    ]

    insert-IsSorted :
        (x : Condition) (ys : List Condition)
        → IsSorted less ys
        → IsSorted less (insert_sorted less x ys)
    unfolding insert_sorted NotBelow
    insert-IsSorted x [] s = (tt, tt)
    insert-IsSorted x (y ∷ ys) s = elim (Bool-cases (less y x)) [
      | inl t ↦ rw t (insert-NotBelow y x ys (not_less_back y x t) s.0, insert-IsSorted x ys s.1)
      | inr f ↦ rw f ((f, below_all y x ys f s.0), s)
    ]

    sort-IsSorted : (cs : List Condition) → IsSorted less (test_sort less cs)
    unfolding test_sort
    sort-IsSorted [] = tt
    sort-IsSorted (c ∷ cs) = insert-IsSorted c (test_sort less cs) (sort-IsSorted cs)

pub test_sort-IsLawfulSorter : IsLawfulSorter test_sort
test_sort-IsLawfulSorter = record {
  sort-perm = λ less cs _. sort-perm less cs;
  sort-IsSorted = λ less cs weak. sort-IsSorted less weak cs;
}
