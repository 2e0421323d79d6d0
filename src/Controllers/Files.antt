-- ===== src/Controllers/Files.antt =====
-- The files that the command lines of a tenant's control plane name, against the entries of the
-- secrets that are mounted there (tenant_controller_phase.go).
use Prim.Native.String.append
use Prim.Native.Char.{code}
use multi_tenants.Base.{
  String, string_same, ◌<>◌, Bool, true, false, ◌≡◌, refl, ◌∙◌, ap, inl, inr, Bool-cases, Option,
  none, some, List, [], ◌∷◌, ◌==◌, nat_eq, string_eq, if◌then◌else◌, lookup, insert, insert_all,
  lookup-insert, All,
}
use multi_tenants.Api.{Bytes, Container, Volume}

-- The text after the first `=` of an option.
unfoldable pub after_equals : String → Option String
after_equals String.[] = none
after_equals (String.◌∷◌ a s) = let rest = after_equals s in if code a == b'=' then some s else rest

-- The text after a prefix.
unfoldable pub strip_prefix : String → String → Option String
strip_prefix String.[] s = some s
strip_prefix (String.◌∷◌ a p) String.[] = none
strip_prefix (String.◌∷◌ a p) (String.◌∷◌ b s) =
    let rest = strip_prefix p s in if code a == code b then rest else none

-- The file in a directory that an option names by its value.
unfoldable pub file_in : String → String → Option String
unfolding after_equals strip_prefix
file_in directory option = elim (after_equals option) [
  | none ↦ none
  | some value ↦ strip_prefix (directory <> "/") value
]

-- The secret of the volume of that name.
unfoldable pub volume_secret : String → List Volume → Option String
volume_secret name [] = none
volume_secret name (v ∷ vs) =
    let rest = volume_secret name vs in if v.name == name then some v.secret_name else rest

-- The map has an entry of that name.
abbrev pub HasEntry : String → List (String × Bytes) → Type 0
HasEntry name contents = (b : Bytes) × (lookup name contents ≡ some b)

-- An option that names a file in the directory names an entry.
abbrev pub Names : List (String × Bytes) → Option String → Type 0
Names contents none = Unit
Names contents (some file) = HasEntry file contents

-- A container that mounts the volume finds there each file that its command names.
abbrev pub FindsFiles : (volume : String) → List (String × Bytes) → Container → Type 0
FindsFiles volume contents c =
    All
      (λ m.
        m.name ≡ volume → All (λ option. Names contents (file_in m.mount_path option)) c.command)
      c.volume_mounts

-- A text that is no path in the directory.
abbrev pub IsOutside : String → String → Type 0
IsOutside directory value = strip_prefix (directory <> "/") value ≡ none

pub after_equals-append :
    (p s v : String) → after_equals p ≡ some v → after_equals (p <> s) ≡ some (v <> s)
unfolding after_equals
after_equals-append String.[] s v h = cc
after_equals-append (String.◌∷◌ a p) s v h =
    ap after_equals (append.cons a p s) ∙ by_test (code a == b'=') h (after_equals-append p s v)
  where
    by_test :
        (b : Bool)
        → (if b then some p else after_equals p) ≡ some v
        → (after_equals p ≡ some v → after_equals (p <> s) ≡ some (v <> s))
        → (if b then some (p <> s) else after_equals (p <> s)) ≡ some (v <> s)
    by_test true e ih = let same : p ≡ v = cc in ap (λ x. some (x <> s)) same
    by_test false e ih = ih e

pub HasEntry-insert_self :
    (name : String) (b : Bytes) (m : List (String × Bytes)) → HasEntry name (insert name b m)
unfolding string_eq
HasEntry-insert_self name b m = (b, rw (lookup-insert, string_same) refl)

pub HasEntry-insert :
    (name other : String) (b : Bytes) (m : List (String × Bytes))
    → HasEntry name m
    → HasEntry name (insert other b m)
HasEntry-insert name other b m (held, e) = elim (Bool-cases (other == name)) [
  | inl same ↦ (b, rw (lookup-insert, same) refl)
  | inr differ ↦ (held, rw (lookup-insert, differ) e)
]

HasEntry-insert_all :
    (name : String) (source m : List (String × Bytes))
    → HasEntry name m
    → HasEntry name (insert_all source m)
unfolding insert_all
HasEntry-insert_all name [] m h = h
HasEntry-insert_all name ((k, v) ∷ source) m h =
    HasEntry-insert_all name source (insert k v m) (HasEntry-insert name k v m h)

pub HasEntry-source :
    (name : String) (source m : List (String × Bytes))
    → HasEntry name source
    → HasEntry name (insert_all source m)
unfolding insert_all lookup
HasEntry-source name [] m h = cc
HasEntry-source name ((k, v) ∷ source) m (b, e) = elim (Bool-cases (k == name)) [
  | inl same ↦ HasEntry-insert_all name source (insert k v m) (v, rw (lookup-insert, same) refl)
  | inr differ ↦ HasEntry-source name source (insert k v m) (b, rw (lookup, differ) at e)
]
