-- ===== src/Conditions/Reading.antt =====
-- How the first condition of a type is found again after a list is rearranged or filtered.
use mathlib.Core.HLevel.{×_prop, Unit-prop}
use mathlib.Core.Logic.{∥∥₁_elim}
use mathlib.Core.List.{Perm, Permᴰ}
use multi_tenants.Base.{
  String, ◌≡◌, refl, ◌∙◌, Option, none, some, List, [], ◌∷◌, ◌++◌, arith, ◌==◌, string_eq,
  String_set, if◌then◌else◌,
}
use multi_tenants.Api.{Condition}
use multi_tenants.Conditions.Get.{find}
use multi_tenants.Conditions.Set.{without}

-- No type stands twice.
abbrev pub IsUnique : List Condition → Type 0
IsUnique [] = Unit
IsUnique (c ∷ cs) = (find cs c.type ≡ none) × IsUnique cs

pub find-type : (cs : List Condition) (t : String) (c : Condition) → find cs t ≡ some c → c.type ≡ t
unfolding find
find-type [] t c h = cc
find-type (x ∷ cs) t c h = ground (arith, find-type cs t c)

pub find-append :
    (cs ds : List Condition) (t : String)
    → find (cs ++ ds) t ≡ elim (find cs t) [ some c ↦ some c | none ↦ find ds t ]
unfolding find
find-append [] ds t = refl
find-append (x ∷ cs) ds t = ground (arith, find-append cs ds t)

-- Same lookups, and no type twice.
abbrev Agrees : List Condition → List Condition → Type 0
Agrees cs ds = ((t : String) → find cs t ≡ find ds t) × IsUnique ds

Agrees-cons :
    (c d : Condition) (cs ds : List Condition)
    → c ≡ d
    → IsUnique (c ∷ cs)
    → Agrees cs ds
    → Agrees (c ∷ cs) (d ∷ ds)
unfolding find
Agrees-cons c d cs ds e u (same, v) =
    (λ t. ground (arith, same t), (ground (arith, same c.type), v))

Agrees-swap :
    (a b a' b' : Condition) (cs : List Condition)
    → a ≡ b'
    → b ≡ a'
    → IsUnique (a ∷ b ∷ cs)
    → Agrees (a ∷ b ∷ cs) (a' ∷ b' ∷ cs)
unfolding find
Agrees-swap a b a' b' cs e f u = (λ t. ground arith, (ground arith, (ground arith, u.1.1)))

find-Permᴰ : {cs ds : List Condition} → Permᴰ cs ds → IsUnique cs → Agrees cs ds
find-Permᴰ Permᴰ.nil u = (λ t. refl, u)
find-Permᴰ (Permᴰ.cons {a = a} {b = b} {l₁ = cs} {l₂ = ds} e p) u =
    Agrees-cons a b cs ds e u (find-Permᴰ p u.1)
find-Permᴰ (Permᴰ.swap {a = a} {b = b} {a' = a'} {b' = b'} {l = l} e f) u =
    Agrees-swap a b a' b' l e f u
find-Permᴰ (Permᴰ.trans p q) u =
    let (same, v) = find-Permᴰ p u in let (same', w) = find-Permᴰ q v in (λ t. same t ∙ same' t, w)

option_set : IsSet (Option Condition)
option_set = hlevel String_set

IsUnique-prop : (cs : List Condition) → IsProp (IsUnique cs)
IsUnique-prop [] = Unit-prop
IsUnique-prop (c ∷ cs) = ×_prop (option_set _ _) (IsUnique-prop cs)

-- Rearranging a list in which no type stands twice changes no lookup.
pub find-perm :
    {cs ds : List Condition} → Perm cs ds → IsUnique cs → (t : String) → find cs t ≡ find ds t
find-perm p u t = ∥∥₁_elim p (option_set _ _) (λ d. (find-Permᴰ d u).0 t)

pub IsUnique-perm : {cs ds : List Condition} → Perm cs ds → IsUnique cs → IsUnique ds
IsUnique-perm {ds = ds} p u = ∥∥₁_elim p (IsUnique-prop ds) (λ d. (find-Permᴰ d u).1)

pub find-without :
    (t u : String) (cs : List Condition)
    → find (without t cs) u ≡ (if t == u then none else find cs u)
unfolding find without
find-without t u [] = ground arith
find-without t u (c ∷ cs) = ground (arith, find-without t u cs)

pub IsUnique-without : (t : String) (cs : List Condition) → IsUnique cs → IsUnique (without t cs)
unfolding without
IsUnique-without t [] u = tt
IsUnique-without t (c ∷ cs) u = ground (arith, IsUnique-without t cs u.1, find-without t c.type cs)
