-- ===== src/Conditions/Laws.antt =====
-- What `Set` and `Delete` (setter.go) promise of an object, for every lawful sort.
use mathlib.Core.List.Perm
use mathlib.Core.List.{Perm}
use multi_tenants.Base.{
  String, true, false, ◌≡◌, refl, ◌∙◌, sym, none, some, List, [], ◌∷◌, arith, ◌==◌, string_eq,
  if◌then◌else◌, All,
}
use multi_tenants.Api.{Time, Condition, Machinery, IsLawfulMachinery}
use multi_tenants.Conditions.Get.{Setter, find, get}
use multi_tenants.Conditions.Set.{
  Sorter, truncate_to_second, has_same_state, lexicographic_less, upsert, set, delete,
}
use multi_tenants.Conditions.Order.{
  IsSorted, IsLawfulSorter, lexicographic_less-IsStrictWeak, lexicographic_less_total,
}
use multi_tenants.Conditions.Reading.{IsUnique, find-perm, IsUnique-perm, find-without}
use multi_tenants.Conditions.Writing.{IsLawfulSetter, settled, find-upsert, upsert-IsUnique}

-- The order of `kubectl`: Ready first, then by type, and no type twice.
abbrev pub IsOrdered : List Condition → Type 0
IsOrdered cs = IsSorted lexicographic_less cs × IsUnique cs

find-le :
    (k : Condition) (cs : List Condition) (t : String) (c : Condition)
    → All (λ x. lexicographic_less x k ≡ false) cs
    → find cs t ≡ some c
    → lexicographic_less c k ≡ false
unfolding find
find-le k [] t c a h = cc
find-le k (x ∷ cs) t c a h = ground (arith, find-le k cs t c a.1)

head_le :
    (c : Condition) (cs : List Condition) (t : String) (d : Condition)
    → IsSorted lexicographic_less (c ∷ cs)
    → find (c ∷ cs) t ≡ some d
    → lexicographic_less d c ≡ false
unfolding find
head_le c cs t d s h =
    ground (arith, find-le c cs t d s.0, lexicographic_less-IsStrictWeak.irrefl c)

same_tail :
    (c d : Condition) (cs ds : List Condition) (t : String)
    → c ≡ d
    → IsUnique (c ∷ cs)
    → IsUnique (d ∷ ds)
    → find (c ∷ cs) t ≡ find (d ∷ ds) t
    → find cs t ≡ find ds t
unfolding find
same_tail c d cs ds t e u v h = ground arith

same_head :
    (c d : Condition) (cs ds : List Condition)
    → IsOrdered (c ∷ cs)
    → IsOrdered (d ∷ ds)
    → find (c ∷ cs) c.type ≡ find (d ∷ ds) c.type
    → find (c ∷ cs) d.type ≡ find (d ∷ ds) d.type
    → c ≡ d
unfolding find
same_head c d cs ds o p e f =
    ground
      (arith, lexicographic_less_total c d, head_le c cs d.type d o.0, head_le d ds c.type c p.0)

-- Two ordered lists with the same lookups are one list.
ordered_eq :
    (cs ds : List Condition)
    → IsOrdered cs
    → IsOrdered ds
    → ((t : String) → find cs t ≡ find ds t)
    → cs ≡ ds
unfolding find
ordered_eq [] [] o p same = refl
ordered_eq [] (d ∷ ds) o p same = ground (arith, same d.type)
ordered_eq (c ∷ cs) [] o p same = ground (arith, same c.type)
ordered_eq (c ∷ cs) (d ∷ ds) o p same =
    let e = same_head c d cs ds o p (same c.type) (same d.type) in
    cc (
      e,
      ordered_eq cs ds (o.0.1, o.1.1) (p.0.1, p.1.1)
          (λ t. same_tail c d cs ds t e o.1 p.1 (same t)),
    )

settled_same :
    (now : Time) (cs : List Condition) (c x : Condition) (t : String)
    → find cs c.type ≡ some x
    → has_same_state x c ≡ true
    → (if c.type == t then some (settled now (find cs c.type) c) else find cs t) ≡ find cs t
settled_same now cs c x t found same = rw found (ground arith)

module _ {A : Type 0} ⦃s : Setter A⦄ (setter : IsLawfulSetter s) (m : Machinery)
    (machinery : IsLawfulMachinery m) where
  open setter use {get-set}

  module _ (sort : Sorter) (sorter : IsLawfulSorter sort) where
    open sorter use {sort-perm, sort-IsSorted}

    abbrev written : Time → A → Condition → List Condition
    written now to c = (upsert m (truncate_to_second now) (s.get_conditions to) c).0

    conditions-set :
        (now : Time) (to : A) (c : Condition)
        → s.is_nil to ≡ false
        → s.get_conditions (set m sort now to (some c)).0
          ≡ sort lexicographic_less (written now to c)
    unfolding set
    conditions-set now to c live = rw live (get-set _ to)

    written-perm :
        (now : Time) (to : A) (c : Condition)
        → Perm (written now to c) (sort lexicographic_less (written now to c))
    written-perm now to c = Perm.symm (sort-perm _ _ lexicographic_less-IsStrictWeak)

    -- After Set a reader finds the settled condition under its type (the old one, with its
    -- transition time, if the state is the same; a stamped one if it changed) and under every
    -- other type what was there before. The object is not nil and has no type twice. The code
    -- outside behaves as documented.
    pub get-set_lem :
        (now : Time) (to : A) (c : Condition) (t : String)
        → s.is_nil to ≡ false
        → IsUnique (s.get_conditions to)
        → get (set m sort now to (some c)).0 t ≡ (
            if c.type == t
            then some (settled (truncate_to_second now) (get to c.type) c)
            else get to t)
    unfolding get
    get-set_lem now to c t live u = rw (conditions-set now to c live) (
        sym (find-perm (written-perm now to c) (upsert-IsUnique m machinery _ _ c u) t)
        ∙ find-upsert m machinery _ _ c t)

    -- Set leaves the conditions sorted, Ready first and then by type, with no type twice. The
    -- object is not nil and had no type twice. The code outside behaves as documented.
    pub set-IsOrdered :
        (now : Time) (to : A) (c : Condition)
        → s.is_nil to ≡ false
        → IsUnique (s.get_conditions to)
        → IsOrdered (s.get_conditions (set m sort now to (some c)).0)
    set-IsOrdered now to c live u = rw (conditions-set now to c live) (
      sort-IsSorted _ _ lexicographic_less-IsStrictWeak,
      IsUnique-perm (written-perm now to c) (upsert-IsUnique m machinery _ _ c u),
    )

    -- Setting a state that already stands in ordered conditions changes nothing, the transition
    -- time included. The code outside behaves as documented.
    pub set_again :
        (now : Time) (to : A) (c x : Condition)
        → s.is_nil to ≡ false
        → IsOrdered (s.get_conditions to)
        → get to c.type ≡ some x
        → has_same_state x c ≡ true
        → s.get_conditions (set m sort now to (some c)).0 ≡ s.get_conditions to
    unfolding get
    set_again now to c x live o found same =
        ordered_eq _ _ (set-IsOrdered now to c live o.1) o (λ t.
          get-set_lem now to c t live o.1 ∙ settled_same _ (s.get_conditions to) c x t found same)

  -- The conditions after Set are the same for every sorting algorithm that sorts, although
  -- sort.Slice leaves the order of equal elements open. The object is not nil and has no type
  -- twice. The code outside behaves as documented.
  pub set_any_sort :
      (sort sort' : Sorter)
      → IsLawfulSorter sort
      → IsLawfulSorter sort'
      → (now : Time) (to : A) (c : Condition) → s.is_nil to ≡ false
      → IsUnique (s.get_conditions to)
      → s.get_conditions (set m sort now to (some c)).0
        ≡ s.get_conditions (set m sort' now to (some c)).0
  unfolding get
  set_any_sort sort sort' lawful lawful' now to c live u =
      ordered_eq _ _ (set-IsOrdered sort lawful now to c live u)
        (set-IsOrdered sort' lawful' now to c live u)
        (λ t.
          get-set_lem sort lawful now to c t live u
          ∙ sym (get-set_lem sort' lawful' now to c t live u))

  -- After Delete no condition of the type is found, and every other lookup is as before. The
  -- object is not nil. The code outside behaves as documented.
  get-delete :
      (to : A) (t u : String)
      → s.is_nil to ≡ false
      → get (delete to t) u ≡ (if t == u then none else get to u)
  unfolding get delete
  get-delete to t u live = rw (live, get-set) (find-without t u (s.get_conditions to))
