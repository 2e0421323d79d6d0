-- ===== src/Client.antt =====
-- `client.Client` of sigs.k8s.io/controller-runtime, and the conversion to unstructured objects:
-- not under src/, so parameters. `W` is the world outside.
pub mod Server
use multi_tenants.Base.{Bool, Option, Result, Call, Eq}
use multi_tenants.Api.{Kind, Object, ObjectKey}

pub record Client (W : Type 0) : Type 0 where
  -- `client.ObjectKeyFromObject`
  pub object_key : (k : Kind) → Object k → ObjectKey
  -- The object that a call fills in is its result. A failed `Get` leaves its argument alone.
  pub get : (k : Kind) → ObjectKey → Call W (Object k)
  pub create : (k : Kind) → Object k → Call W (Object k)
  pub update : (k : Kind) → Object k → Call W (Object k)
  -- `Patch(ctx, obj, client.MergeFrom(base))` and `Status().Patch(…)`, at `base` and `obj`.
  pub patch : (k : Kind) → Object k → Object k → Call W (Object k)
  pub patch_status : (k : Kind) → Object k → Object k → Call W (Object k)
  -- `equality.Semantic.DeepEqual`
  pub deep_equal : (k : Kind) → Object k → Object k → Bool

-- `runtime.DefaultUnstructuredConverter` and the functions of `unstructured`, at "status".
pub record Converter : Type 1 where
  pub Unstructured : Type 0
  pub Value : Type 0
  -- `reflect.DeepEqual`
  pub unstructured_eq : Eq Unstructured
  pub value_eq : Eq Value
  pub to_unstructured : (k : Kind) → Object k → Result Unstructured
  pub from_unstructured : (k : Kind) → Unstructured → Object k → Result (Object k)
  -- `NestedFieldCopy`, `RemoveNestedField`, `SetNestedField`; a value that is not found is nil.
  pub nested_status : Unstructured → Result (Option Value)
  pub remove_status : Unstructured → Unstructured
  pub set_status : Unstructured → Option Value → Result Unstructured
