-- ===== src/Base/Maps.antt =====
-- Go maps with string keys, as association lists with one entry for a key.
use Prim.Native.String.{String}
use mathlib.Core.Path.{◌≡◌, refl}
use mathlib.Core.Option.{Option, none, some}
use mathlib.Core.List.{List, [], ◌∷◌}
use native.Mathlib.Omega.{arith}
use multi_tenants.Base.Equality.{◌==◌, string_eq, if◌then◌else◌}

module _ {ℓ} {V : Type ℓ} where
  -- `v, ok := m[k]`
  unfoldable pub lookup : String → List (String × V) → Option V
  lookup k [] = none
  lookup k ((j, v) ∷ m) = if j == k then some v else lookup k m

  -- `m[key] = value`: the old entry is replaced in its place, a new one comes last.
  unfoldable pub insert : (key : String) (value : V) → List (String × V) → List (String × V)
  insert key value [] = (key, value) ∷ []
  insert key value ((name, old) ∷ rest) =
      let inserted = insert key value rest in
      if name == key then (key, value) ∷ rest else (name, old) ∷ inserted

  -- `for k, v := range source { m[k] = v }`
  unfoldable pub insert_all : List (String × V) → List (String × V) → List (String × V)
  insert_all [] m = m
  insert_all ((k, v) ∷ source) m = insert_all source (insert k v m)

  abbrev pub DistinctKeys : List (String × V) → Type ℓ
  DistinctKeys [] = Unit
  DistinctKeys ((k, _) ∷ m) = (lookup k m ≡ none) × DistinctKeys m

  -- A read after a write, of the same key or of another.
  pub lookup-insert :
      (written slot : String) (value : V) (entries : List (String × V))
      → lookup slot (insert written value entries)
        ≡ (if written == slot then some value else lookup slot entries)
  unfolding lookup insert
  lookup-insert written slot value [] = refl
  lookup-insert written slot value ((_, _) ∷ entries) =
      ground (arith, lookup-insert written slot value entries)

  -- What a later source entry does not replace stays.
  pub lookup-insert_all :
      (j : String) (source m : List (String × V))
      → DistinctKeys source
      → lookup j (insert_all source m)
        ≡ elim (lookup j source) [ some v ↦ some v | none ↦ lookup j m ]
  unfolding lookup insert_all
  lookup-insert_all j [] m d = refl
  lookup-insert_all j ((k, v) ∷ source) m d =
      ground (arith, lookup-insert_all j source (insert k v m) d.1, lookup-insert k j v m)
