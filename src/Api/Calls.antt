-- ===== src/Api/Calls.antt =====
-- Calls of k8s.io/apimachinery and sigs.k8s.io/controller-runtime on values: not under src/, so
-- a parameter. `IsLawfulMachinery` states what their documentation says.
use multi_tenants.Base.{
  String, Bool, true, false, ◌≡◌, Option, none, some, List, [], ◌∷◌, Error, message, ◌==◌,
  string_eq, nat_eq, if◌then◌else◌,
}
use multi_tenants.Api.Meta.{Time, Condition, condition_true, condition_false}

pub record Machinery : Type 0 where
  -- `apierrors.IsNotFound`
  pub is_not_found : Error → Bool
  -- `kerrors.NewAggregate` of a list whose last error is not nil, which gives an error: the list
  -- before the last, and the last.
  pub new_aggregate : List (Option Error) → Error → Error
  -- `(*metav1.Time).IsZero`
  pub is_zero : Option Time → Bool
  -- `meta.IsStatusConditionTrue`, `meta.IsStatusConditionFalse`
  pub is_status_condition_true : List Condition → String → Bool
  pub is_status_condition_false : List Condition → String → Bool
  -- `controllerutil.ContainsFinalizer`, `AddFinalizer`, `RemoveFinalizer`, on the finalizers
  pub contains_finalizer : List String → String → Bool
  pub add_finalizer : List String → String → List String
  pub remove_finalizer : List String → String → List String

pub record IsLawfulMachinery (m : Machinery) : Type 0 where
  -- Only an API status can say "not found".
  pub is_not_found-message : (s : String) → m.is_not_found (message s) ≡ false
  pub is_zero-none : m.is_zero none ≡ true
  pub is_zero-some : (t : Time) → m.is_zero (some t) ≡ (t == 0)
  -- The first condition of the type decides.
  pub true-nil : (t : String) → m.is_status_condition_true [] t ≡ false
  pub true-cons :
      (c : Condition) (cs : List Condition) (t : String)
      → m.is_status_condition_true (c ∷ cs) t
        ≡ (if c.type == t then c.status == condition_true else m.is_status_condition_true cs t)
  pub false-nil : (t : String) → m.is_status_condition_false [] t ≡ false
  pub false-cons :
      (c : Condition) (cs : List Condition) (t : String)
      → m.is_status_condition_false (c ∷ cs) t
        ≡ (if c.type == t then c.status == condition_false else m.is_status_condition_false cs t)
  pub contains-add :
      (fs : List String) (f g : String)
      → m.contains_finalizer (m.add_finalizer fs f) g
        ≡ (if f == g then true else m.contains_finalizer fs g)
  pub contains-remove :
      (fs : List String) (f g : String)
      → m.contains_finalizer (m.remove_finalizer fs f) g
        ≡ (if f == g then false else m.contains_finalizer fs g)
