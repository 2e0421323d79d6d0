-- ===== src/Tests/MainExamples.antt =====
-- The registration of types and the process of the manager at concrete parameters.
use multi_tenants.Base.{
  ℕ, String, Bool, true, false, ◌||◌, ◌&&◌, List, [], ◌∷◌, Result, Error, ok, err, ◌≡◌, refl, some,
  arith, string_eq, ◌==◌,
}
use multi_tenants.Api.{Kind}
use multi_tenants.Api.Register.{GroupVersion, Schemes, scheme_group_version}
use multi_tenants.Manager.Main.{Cobra, init_scheme, process}
use multi_tenants.Manager.Registering.{Knows, KnowsKind, IsLawfulSchemes, init_scheme-Knows}
use multi_tenants.Manager.Entry.{IsLawfulCobra, process_bare_fails}
use multi_tenants.Tests.Server.{Host}
use multi_tenants.Tests.Setting.{empty_host}
use multi_tenants.Tests.ManagerExamples.{test_flags, test_flags-IsLawfulFlags, test_runtime}

abbrev TypeName : Type 0
TypeName = GroupVersion × String

is_same : TypeName → TypeName → Bool
is_same (v, a) (w, b) = v.group == w.group && v.version == w.version && a == b

is_same_refl : (x : TypeName) → is_same x x ≡ true
unfolding is_same
is_same_refl (v, a) = ground arith

is_listed : GroupVersion → List String → TypeName → Bool
is_listed v [] x = false
is_listed v (a ∷ names) x = is_same (v, a) x || is_listed v names x

-- A scheme as the set of the types in it.
abbrev register : GroupVersion → List String → (TypeName → Bool) → TypeName → Bool
register v names s x = is_listed v names x || s x

abbrev core_types : GroupVersion
core_types = record { group = ""; version = "v1" }

abbrev apps_types : GroupVersion
apps_types = record { group = "apps"; version = "v1" }

abbrev test_schemes : Schemes
test_schemes = record {
  Scheme = TypeName → Bool;
  SchemeBuilder = (TypeName → Bool) → Result (TypeName → Bool);
  GroupVersionKind = TypeName;
  GroupKind = String × String;
  GroupVersionResource = TypeName;
  GroupResource = String × String;
  new_scheme = λ _. false;
  add_known_types = register;
  add_to_group_version = λ _ s. s;
  new_scheme_builder = λ fs. elim fs [ [] ↦ λ s. ok s | f ∷ _ ↦ f ];
  builder_add_to_scheme = λ b s. b s;
  core_add_to_scheme = λ s. ok (register core_types ("Namespace" ∷ "Secret" ∷ "Service" ∷ []) s);
  apps_add_to_scheme = λ s. ok (register apps_types ("Deployment" ∷ []) s);
  with_kind = λ v a. (v, a);
  group_kind = λ x. (x.0.group, x.1);
  with_resource = λ v a. (v, a);
  group_resource = λ x. (x.0.group, x.1);
  recognizes = λ s x. s x;
}

or_left : (a b : Bool) → a ≡ true → (a || b) ≡ true
or_left a b h = ground arith

or_right : (a b : Bool) → b ≡ true → (a || b) ≡ true
or_right a b h = ground arith

listed_first :
    (v : GroupVersion) (a : String) (rest : List String) → is_listed v (a ∷ rest) (v, a) ≡ true
unfolding is_listed
listed_first v a rest = or_left _ _ (is_same_refl (v, a))

listed_later :
    (v : GroupVersion) (a b : String) (rest : List String)
    → is_listed v rest (v, b) ≡ true
    → is_listed v (a ∷ rest) (v, b) ≡ true
unfolding is_listed
listed_later v a b rest h = or_right _ _ h

test_schemes-IsLawfulSchemes : IsLawfulSchemes test_schemes
test_schemes-IsLawfulSchemes = record {
  add_known_types-first = λ v a rest s. or_left _ _ (listed_first v a rest);
  add_known_types-second =
      λ v a b rest s. or_left _ _ (listed_later v a b _ (listed_first v b rest));
  add_known_types-Extends = λ v names s w a known. or_right _ _ known;
  add_to_group_version-Extends = λ v s w a known. known;
  builder-one = λ f s. refl;
  core_added = λ s. (
    _,
    refl,
    λ v a known. or_right _ _ known,
    or_left _ _ (listed_first core_types "Namespace" _),
    or_left _ _
        (listed_later core_types "Namespace" "Secret" _ (listed_first core_types "Secret" _)),
    or_left _ _ (
        listed_later core_types "Namespace" "Service" _
          (listed_later core_types "Secret" "Service" _ (listed_first core_types "Service" _))),
  );
  apps_added = λ s. (
    _,
    refl,
    λ v a known. or_right _ _ known,
    or_left _ _ (listed_first apps_types "Deployment" _),
  );
}

init_scheme-Knows_example :
    (scheme : test_schemes.Scheme) × (init_scheme test_schemes ≡ some scheme)
    × ((k : Kind) → KnowsKind test_schemes k scheme)
    × Knows test_schemes scheme_group_version "TenantList" scheme
init_scheme-Knows_example = init_scheme-Knows test_schemes test_schemes-IsLawfulSchemes

abbrev exit_code : Result (Unit {0}) × Host → ℕ × Host
exit_code (ok _, w) = (0, w)
exit_code (err _, w) = (1, w)

-- A process without arguments.
abbrev test_cobra : Cobra Host test_flags
test_cobra = record {
  new_flags = tt;
  add_go_flags = λ fs. fs;
  cli_run = λ cmd w. exit_code (cmd.run_e cmd.options w);
}

abbrev no_arguments : Host → List String
no_arguments w = []

code_of_error : (x : Result (Unit {0}) × Host) {e : Error} → x.0 ≡ err e → exit_code x ≡ (1, x.1)
code_of_error (ok _, w) h = cc
code_of_error (err _, w) h = refl

test_cobra-IsLawfulCobra : IsLawfulCobra test_flags test_cobra no_arguments
test_cobra-IsLawfulCobra = record {
  bare-err = λ cmd w e bare failed. code_of_error (cmd.run_e cmd.options w) failed;
}

process_bare_fails_example :
    process test_schemes test_runtime test_flags test_cobra empty_host ≡ some (1, empty_host)
unfolding test_runtime
process_bare_fails_example =
    process_bare_fails test_flags test_cobra test_schemes test_runtime test_flags-IsLawfulFlags
      no_arguments test_cobra-IsLawfulCobra test_schemes-IsLawfulSchemes empty_host refl refl
