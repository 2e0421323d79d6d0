-- ===== src/Base/Text.antt =====
-- Go's `<` on strings, a strict total order: byte order of UTF-8 is the order of code points.
use Prim.Native.Nat.{ℕ, ◌<◌, Ordering, compare as compare_ℕ}
use Prim.Native.Char.{Char, code}
use Prim.Native.String.compare
use Prim.Native.String.{String, [], ◌∷◌, ◌++◌, compare, then}
use mathlib.Core.Path.{◌≡◌, refl, sym, ◌∙◌}
use mathlib.Core.Logic.{◌⊎◌, inl, inr, ◌↔◌}
use mathlib.Core.Bool.{Bool, true, false, false≢true}
use native.Mathlib.Omega.{arith}
use text.Mathlib.TextEquality.{codes_equal}
use text.Mathlib.TextPositions.{compare_refl}

infixr 65 ◌<>◌
abbrev pub ◌<>◌ : String → String → String
s <> t = s ++ t

unfoldable pub str_lt : String → String → Bool
str_lt s t = elim (compare s t) [ Ordering.lt ↦ true | _ ↦ false ]

IsLess : String → String → Type 0
IsLess s t = compare s t ≡ Ordering.lt

then_lt :
    (o r : Ordering)
    → then o r ≡ Ordering.lt
    → (o ≡ Ordering.lt) ⊎ ((o ≡ Ordering.eq) × (r ≡ Ordering.lt))
then_lt Ordering.lt r h = inl refl
then_lt Ordering.eq r h = inr (refl, h)
then_lt Ordering.gt r h = cc

IsLess-cons :
    (c d : Char) (s t : String)
    → IsLess (c ∷ s) (d ∷ t)
    → (code c < code d) ⊎ ((code c ≡ code d) × IsLess s t)
unfolding IsLess
IsLess-cons c d s t h =
    let cases =
      then_lt (compare_ℕ (code c) (code d)) (compare s t) (sym (compare.cons-cons c d s t) ∙ h) in
    elim cases [ inl p ↦ inl (ground arith) | inr (p, q) ↦ inr (ground arith, q) ]

compare-lt : (m n : ℕ) → m < n → compare_ℕ m n ≡ Ordering.lt
compare-lt m n h = ground arith

compare-eq : (m n : ℕ) → m ≡ n → compare_ℕ m n ≡ Ordering.eq
compare-eq m n h = ground arith

cons-IsLess :
    (c d : Char) (s t : String)
    → ((code c < code d) ⊎ ((code c ≡ code d) × IsLess s t))
    → IsLess (c ∷ s) (d ∷ t)
unfolding IsLess
cons-IsLess c d s t (inl p) = compare.cons-cons c d s t ∙ rw (compare-lt _ _ p)
cons-IsLess c d s t (inr (p, q)) = compare.cons-cons c d s t ∙ rw (compare-eq _ _ p) q

lt-ne-gt : Ordering.lt ≡ Ordering.gt → ⊥
lt-ne-gt h = cc

IsLess-trans : (s t u : String) → IsLess s t → IsLess t u → IsLess s u
unfolding IsLess
IsLess-trans [] [] u p q = q
IsLess-trans [] (d ∷ t) [] p q = absurd (lt-ne-gt (sym q ∙ compare.cons-nil d t))
IsLess-trans [] (d ∷ t) (e ∷ u) p q = compare.nil-cons e u
IsLess-trans (c ∷ s) [] u p q = absurd (lt-ne-gt (sym p ∙ compare.cons-nil c s))
IsLess-trans (c ∷ s) (d ∷ t) [] p q = absurd (lt-ne-gt (sym q ∙ compare.cons-nil d t))
IsLess-trans (c ∷ s) (d ∷ t) (e ∷ u) p q =
    cons-IsLess c e s u (chain (IsLess-cons c d s t p) (IsLess-cons d e t u q) (IsLess-trans s t u))
  where
    chain :
        (code c < code d) ⊎ ((code c ≡ code d) × IsLess s t)
        → (code d < code e) ⊎ ((code d ≡ code e) × IsLess t u)
        → (IsLess s t → IsLess t u → IsLess s u)
        → (code c < code e) ⊎ ((code c ≡ code e) × IsLess s u)
    chain (inl a) (inl b) k = inl (omega arith)
    chain (inl a) (inr (b, _)) k = inl (omega arith)
    chain (inr (a, _)) (inl b) k = inl (omega arith)
    chain (inr (a, x)) (inr (b, y)) k = inr (omega arith, k x y)

IsLess-total : (s t : String) → (s ≡ t) ⊎ IsLess s t ⊎ IsLess t s
unfolding IsLess
IsLess-total [] [] = inl refl
IsLess-total [] (d ∷ t) = inr (inl (compare.nil-cons d t))
IsLess-total (c ∷ s) [] = inr (inr (compare.nil-cons c s))
IsLess-total (c ∷ s) (d ∷ t) = decide_head (compare_ℕ (code c) (code d)) refl (IsLess-total s t)
  where
    decide_head :
        (o : Ordering)
        → compare_ℕ (code c) (code d) ≡ o
        → (s ≡ t) ⊎ IsLess s t ⊎ IsLess t s
        → ((c ∷ s) ≡ (d ∷ t)) ⊎ IsLess (c ∷ s) (d ∷ t) ⊎ IsLess (d ∷ t) (c ∷ s)
    decide_head Ordering.lt e _ = inr (inl (cons-IsLess c d s t (inl (ground arith))))
    decide_head Ordering.gt e _ = inr (inr (cons-IsLess d c t s (inl (ground arith))))
    decide_head Ordering.eq e (inl p) = inl (λ i. codes_equal c d e i ∷ p i)
    decide_head Ordering.eq e (inr (inl p)) =
        inr (inl (cons-IsLess c d s t (inr (ground arith, p))))
    decide_head Ordering.eq e (inr (inr p)) =
        inr (inr (cons-IsLess d c t s (inr (ground arith, p))))

str_lt-iff_IsLess : (s t : String) → (str_lt s t ≡ true) ↔ IsLess s t
unfolding str_lt IsLess
str_lt-iff_IsLess s t = by_cases (compare s t)
  where
    by_cases :
        (o : Ordering) → ((elim o [ Ordering.lt ↦ true | _ ↦ false ]) ≡ true) ↔ (o ≡ Ordering.lt)
    by_cases Ordering.lt = (λ _. refl, λ _. refl)
    by_cases Ordering.eq = (λ h. cc, λ h. cc)
    by_cases Ordering.gt = (λ h. cc, λ h. cc)

pub str_lt_trans : (s t u : String) → str_lt s t ≡ true → str_lt t u ≡ true → str_lt s u ≡ true
str_lt_trans s t u p q =
    (str_lt-iff_IsLess s u).1
      (IsLess-trans s t u ((str_lt-iff_IsLess s t).0 p) ((str_lt-iff_IsLess t u).0 q))

pub str_lt_irrefl : (s : String) → str_lt s s ≡ false
unfolding str_lt
str_lt_irrefl s = rw (compare_refl s, str_lt)

-- Two strings of which neither is below the other are equal.
pub str_lt_total : (s t : String) → str_lt s t ≡ false → str_lt t s ≡ false → s ≡ t
str_lt_total s t p q = elim (IsLess-total s t) [
  | inl e ↦ e
  | inr (inl l) ↦ absurd (false≢true (sym p ∙ (str_lt-iff_IsLess s t).1 l))
  | inr (inr l) ↦ absurd (false≢true (sym q ∙ (str_lt-iff_IsLess t s).1 l))
]
