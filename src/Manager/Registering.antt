-- ===== src/Manager/Registering.antt =====
-- What the scheme of the manager (cmd/manager/app/app.go) knows after the registration of types.
use multi_tenants.Base.{String, true, ◌≡◌, refl, some, List, [], ◌∷◌, Result, ok}
use multi_tenants.Api.{Kind}
use multi_tenants.Api.Register.{
  GroupVersion, Schemes, scheme_group_version, add_known_types, scheme_builder, add_to_scheme,
}
use multi_tenants.Manager.Main.{init_scheme}

abbrev core_group_version : GroupVersion
core_group_version = record { group = ""; version = "v1" }

abbrev apps_group_version : GroupVersion
apps_group_version = record { group = "apps"; version = "v1" }

module _ (s : Schemes) where
  open s use {Scheme}

  -- The scheme knows the type of that name.
  abbrev pub Knows : GroupVersion → String → Scheme → Type 0
  Knows v name scheme = s.recognizes scheme (s.with_kind v name) ≡ true

  -- What is registered stays registered.
  abbrev pub Extends : Scheme → Scheme → Type 0
  Extends scheme scheme' =
      (v : GroupVersion) (name : String) → Knows v name scheme → Knows v name scheme'

  -- The documented behaviour of the calls that register types.
  pub record IsLawfulSchemes : Type 0 where
    pub add_known_types-first :
        (v : GroupVersion) (a : String) (rest : List String) (scheme : Scheme)
        → Knows v a (s.add_known_types v (a ∷ rest) scheme)
    pub add_known_types-second :
        (v : GroupVersion) (a b : String) (rest : List String) (scheme : Scheme)
        → Knows v b (s.add_known_types v (a ∷ b ∷ rest) scheme)
    pub add_known_types-Extends :
        (v : GroupVersion) (names : List String) (scheme : Scheme)
        → Extends scheme (s.add_known_types v names scheme)
    pub add_to_group_version-Extends :
        (v : GroupVersion) (scheme : Scheme) → Extends scheme (s.add_to_group_version v scheme)
    -- A builder of one function applies it.
    pub builder-one :
        (f : Scheme → Result Scheme) (scheme : Scheme)
        → s.builder_add_to_scheme (s.new_scheme_builder (f ∷ [])) scheme ≡ f scheme
    -- The packages of Kubernetes register their types.
    pub core_added :
        (scheme : Scheme)
        → (scheme' : Scheme) × (s.core_add_to_scheme scheme ≡ ok scheme')
          × Extends scheme scheme'
          × Knows core_group_version "Namespace" scheme'
          × Knows core_group_version "Secret" scheme'
          × Knows core_group_version "Service" scheme'
    pub apps_added :
        (scheme : Scheme)
        → (scheme' : Scheme) × (s.apps_add_to_scheme scheme ≡ ok scheme')
          × Extends scheme scheme'
          × Knows apps_group_version "Deployment" scheme'

  -- The kinds that the reconciler asks the API server for.
  abbrev pub KnowsKind : Kind → Scheme → Type 0
  KnowsKind Kind.tenant = Knows (record { group = "tenancy.kcp.io"; version = "v1alpha1" }) "Tenant"
  KnowsKind Kind.namespace = Knows core_group_version "Namespace"
  KnowsKind Kind.secret = Knows core_group_version "Secret"
  KnowsKind Kind.deployment = Knows apps_group_version "Deployment"
  KnowsKind Kind.service = Knows core_group_version "Service"

  module _ (lawful : IsLawfulSchemes) where
    open lawful use {
      add_known_types-first, add_known_types-second, add_known_types-Extends,
      add_to_group_version-Extends, builder-one, core_added, apps_added,
    }

    tenants_added :
        (scheme : Scheme)
        → (scheme' : Scheme) × (add_to_scheme s scheme ≡ ok scheme')
          × Extends scheme scheme'
          × Knows scheme_group_version "Tenant" scheme'
          × Knows scheme_group_version "TenantList" scheme'
    unfolding add_to_scheme scheme_builder add_known_types
    tenants_added scheme = (
      _,
      builder-one _ scheme,
      λ v name known. kept v name (add_known_types-Extends _ _ scheme v name known),
      kept scheme_group_version "Tenant" (add_known_types-first _ _ _ scheme),
      kept scheme_group_version "TenantList" (add_known_types-second _ _ _ _ scheme),
    )
      where
        kept :
            Extends (s.add_known_types scheme_group_version ("Tenant" ∷ "TenantList" ∷ []) scheme) (
              s.add_to_group_version scheme_group_version
                (s.add_known_types scheme_group_version ("Tenant" ∷ "TenantList" ∷ []) scheme))
        kept = add_to_group_version-Extends scheme_group_version _

    -- The registration at the start of the process does not panic, and leaves a scheme that
    -- knows each kind that the reconciler reads or writes, and the list of Tenants, in the
    -- groups and versions of their APIs. The code outside behaves as documented.
    pub init_scheme-Knows :
        (scheme : Scheme) × (init_scheme s ≡ some scheme)
        × ((k : Kind) → KnowsKind k scheme)
        × Knows scheme_group_version "TenantList" scheme
    unfolding init_scheme
    init_scheme-Knows =
        let (with_core, core_ok, _, namespaces, secrets, services) = core_added s.new_scheme in
        let (with_apps, apps_ok, kept, deployments) = apps_added with_core in
        let (scheme, tenants_ok, kept', tenants, lists) = tenants_added with_apps in
        (
          scheme,
          rw (core_ok, apps_ok, tenants_ok) refl,
          λ k. elim k as (λ j. KnowsKind j scheme) [
            | Kind.tenant ↦ tenants
            | Kind.namespace ↦ kept' _ _ (kept _ _ namespaces)
            | Kind.secret ↦ kept' _ _ (kept _ _ secrets)
            | Kind.deployment ↦ kept' _ _ deployments
            | Kind.service ↦ kept' _ _ (kept _ _ services)
          ],
          lists,
        )
