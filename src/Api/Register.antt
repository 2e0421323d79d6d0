-- ===== src/Api/Register.antt =====
-- pkg/apis/tenancy/v1alpha1/register.go and pkg/apis/tenancy/register.go. The schemes of
-- apimachinery are a parameter.
use multi_tenants.Base.{String, Bool, List, [], ◌∷◌, Result, ok}

-- `schema.GroupVersion`
pub record GroupVersion : Type 0 where
  pub group : String
  pub version : String

pub record Schemes : Type 1 where
  -- `*runtime.Scheme`; a call that changes the scheme returns the changed one.
  pub Scheme : Type 0
  -- `runtime.SchemeBuilder`
  pub SchemeBuilder : Type 0
  -- `schema.GroupVersionKind`, `schema.GroupKind`, `schema.GroupVersionResource`, and
  -- `schema.GroupResource`
  pub GroupVersionKind : Type 0
  pub GroupKind : Type 0
  pub GroupVersionResource : Type 0
  pub GroupResource : Type 0
  pub new_scheme : Scheme
  -- `scheme.AddKnownTypes`, which is given objects and registers their types by name
  pub add_known_types : GroupVersion → List String → Scheme → Scheme
  -- `metav1.AddToGroupVersion`
  pub add_to_group_version : GroupVersion → Scheme → Scheme
  pub new_scheme_builder : List (Scheme → Result Scheme) → SchemeBuilder
  -- `SchemeBuilder.AddToScheme`
  pub builder_add_to_scheme : SchemeBuilder → Scheme → Result Scheme
  -- `corev1.AddToScheme` and `appsv1.AddToScheme`
  pub core_add_to_scheme : Scheme → Result Scheme
  pub apps_add_to_scheme : Scheme → Result Scheme
  pub with_kind : GroupVersion → String → GroupVersionKind
  pub group_kind : GroupVersionKind → GroupKind
  pub with_resource : GroupVersion → String → GroupVersionResource
  pub group_resource : GroupVersionResource → GroupResource
  -- `scheme.Recognizes`
  pub recognizes : Scheme → GroupVersionKind → Bool

abbrev pub group_name : String
group_name = "tenancy.kcp.io"

abbrev pub scheme_group_version : GroupVersion
scheme_group_version = record { group = group_name; version = "v1alpha1" }

module _ (s : Schemes) where
  open s use {Scheme, GroupKind, GroupResource}

  unfoldable pub add_known_types : Scheme → Result Scheme
  add_known_types scheme =
      let known = s.add_known_types scheme_group_version ("Tenant" ∷ "TenantList" ∷ []) scheme in
      ok (s.add_to_group_version scheme_group_version known)

  unfoldable pub scheme_builder : s.SchemeBuilder
  unfolding add_known_types
  scheme_builder = s.new_scheme_builder (add_known_types ∷ [])

  unfoldable pub add_to_scheme : Scheme → Result Scheme
  unfolding scheme_builder
  add_to_scheme = s.builder_add_to_scheme scheme_builder

  unfoldable pub kind : String → GroupKind
  kind name = s.group_kind (s.with_kind scheme_group_version name)

  unfoldable pub resource : String → GroupResource
  resource name = s.group_resource (s.with_resource scheme_group_version name)
