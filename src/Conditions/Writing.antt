-- ===== src/Conditions/Writing.antt =====
-- What `Set` and `Delete` (setter.go) leave, for every lawful object and every lawful sort.
use multi_tenants.Base.{
  String, Bool, true, false, ◌≡◌, refl, Option, none, some, List, [], ◌∷◌, ◌++◌, arith, ◌==◌,
  string_eq, nat_eq, if◌then◌else◌,
}
use multi_tenants.Api.{Time, Condition, Machinery, IsLawfulMachinery}
use multi_tenants.Conditions.Get.{Setter, find}
use multi_tenants.Conditions.Set.{has_same_state, with_time, update_existing, upsert}
use multi_tenants.Conditions.Reading.{IsUnique, find-append}

-- Reading back what was written.
pub record IsLawfulSetter {A : Type 0} (s : Setter A) : Type 0 where
  pub get-set : (cs : List Condition) (a : A) → s.get_conditions (s.set_conditions cs a) ≡ cs

-- The condition that stands after `Set`: an old one in the same state stays as it is, with its
-- transition time; a change of state is stamped; a new one keeps a time of its own.
abbrev pub settled : Time → Option Condition → Condition → Condition
settled now none c = if c.last_transition_time == 0 then with_time now c else c
settled now (some x) c = if has_same_state x c then x else with_time now c

abbrev kept : Time → Condition → Option Condition → Option Condition
kept now c none = none
kept now c (some x) = some (settled now (some x) c)

abbrev is_some : Option Condition → Bool
is_some none = false
is_some (some _) = true

update_existing-exists :
    (now : Time) (cs : List Condition) (c : Condition)
    → (update_existing now cs c).0 ≡ is_some (find cs c.type)
unfolding update_existing find
update_existing-exists now [] c = refl
update_existing-exists now (x ∷ cs) c = ground (arith, update_existing-exists now cs c)

update_existing_new :
    (now : Time) (cs : List Condition) (c : Condition)
    → find cs c.type ≡ none
    → update_existing now cs c ≡ (false, cs, c)
unfolding update_existing find
update_existing_new now [] c h = refl
update_existing_new now (x ∷ cs) c h = ground (arith, update_existing_new now cs c)

find-update_existing :
    (now : Time) (cs : List Condition) (c : Condition) (t : String)
    → find (update_existing now cs c).1 t
      ≡ (if c.type == t then kept now c (find cs t) else find cs t)
unfolding update_existing find
find-update_existing now [] c t = ground arith
find-update_existing now (x ∷ cs) c t = ground (arith, find-update_existing now cs c t)

update_existing-IsUnique :
    (now : Time) (cs : List Condition) (c : Condition)
    → IsUnique cs
    → IsUnique (update_existing now cs c).1
unfolding update_existing find
update_existing-IsUnique now [] c u = tt
update_existing-IsUnique now (x ∷ cs) c u =
    ground (arith, update_existing-IsUnique now cs c u.1, find-update_existing now cs c x.type)

append-IsUnique :
    (cs : List Condition) (c : Condition)
    → find cs c.type ≡ none
    → IsUnique cs
    → IsUnique (cs ++ c ∷ [])
unfolding find
append-IsUnique [] c h u = (refl, tt)
append-IsUnique (x ∷ cs) c h u =
    ground (arith, append-IsUnique cs c, find-append cs (c ∷ []) x.type)

module _ (m : Machinery) (lawful : IsLawfulMachinery m) where
  open lawful use {is_zero-some}

  upsert_new :
      (now : Time) (cs : List Condition) (c : Condition)
      → find cs c.type ≡ none
      → upsert m now cs c ≡ (cs ++ settled now none c ∷ [], settled now none c)
  unfolding upsert
  upsert_new now cs c h =
      ground (arith, update_existing_new now cs c h, is_zero-some c.last_transition_time)

  upsert_old :
      (now : Time) (cs : List Condition) (c x : Condition)
      → find cs c.type ≡ some x
      → (upsert m now cs c).0 ≡ (update_existing now cs c).1
  unfolding upsert
  upsert_old now cs c x h = ground (arith, update_existing-exists now cs c)

  settled-type :
      (now : Time) (o : Option Condition) (c : Condition) → (settled now o c).type ≡ c.type
  unfolding has_same_state
  settled-type now none c = ground arith
  settled-type now (some x) c = ground arith

  find_own : (c : Condition) (t : String) → find (c ∷ []) t ≡ (if c.type == t then some c else none)
  unfolding find
  find_own c t = refl

  find-upsert_cases :
      (now : Time) (cs : List Condition) (c : Condition) (t : String) (o : Option Condition)
      → find cs c.type ≡ o
      → find (upsert m now cs c).0 t ≡ (if c.type == t then some (settled now o c) else find cs t)
  find-upsert_cases now cs c t none h =
      rw (upsert_new now cs c h, find-append)
        (ground (arith, find_own (settled now none c) t, settled-type now none c))
  find-upsert_cases now cs c t (some x) h =
      rw (upsert_old now cs c x h, find-update_existing) (ground arith)

  -- A lookup after the write: the settled condition at its own type, the old one elsewhere.
  pub find-upsert :
      (now : Time) (cs : List Condition) (c : Condition) (t : String)
      → find (upsert m now cs c).0 t
        ≡ (if c.type == t then some (settled now (find cs c.type) c) else find cs t)
  find-upsert now cs c t = find-upsert_cases now cs c t (find cs c.type) refl

  upsert-IsUnique_cases :
      (now : Time) (cs : List Condition) (c : Condition) (o : Option Condition)
      → find cs c.type ≡ o
      → IsUnique cs
      → IsUnique (upsert m now cs c).0
  upsert-IsUnique_cases now cs c none h u =
      rw (upsert_new now cs c h)
        (append-IsUnique cs (settled now none c) (rw (settled-type now none c) h) u)
  upsert-IsUnique_cases now cs c (some x) h u =
      rw (upsert_old now cs c x h) (update_existing-IsUnique now cs c u)

  pub upsert-IsUnique :
      (now : Time) (cs : List Condition) (c : Condition)
      → IsUnique cs
      → IsUnique (upsert m now cs c).0
  upsert-IsUnique now cs c u = upsert-IsUnique_cases now cs c (find cs c.type) refl u
