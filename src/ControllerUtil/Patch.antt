-- ===== src/ControllerUtil/Patch.antt =====
-- `PatchIfExists` of pkg/controllerutil/controllerutil.go. Its operation result counts also when
-- there is an error, so it returns both.
use multi_tenants.Base.{
  Bool, true, false, ◌&&◌, ◌||◌, Option, none, some, Result, ok, err, Error, Call, pure, lift,
  ◌>>=◌, ◌!=◌, option_eq, if◌then◌else◌,
}
use multi_tenants.Api.{Kind, Object, ObjectKey, Machinery}
use multi_tenants.Client.{Client, Converter}
use multi_tenants.ControllerUtil.{OperationResult, is_updated, MutateFn, mutate}

-- `(OperationResult, error)`
abbrev pub Operation : Type 0
Operation = OperationResult × Option Error

abbrev pub is_found {ℓ} : {A : Type ℓ} → Option A → Bool
is_found none = false
is_found (some _) = true

module _ (v : Converter) where
  open v use {
    Unstructured, Value, to_unstructured, from_unstructured, nested_status, remove_status,
    set_status,
  }

  -- A resource in unstructured form, its status apart.
  abbrev pub Split : Type 0
  Split = Unstructured × Option Value

  unfoldable pub split : (k : Kind) → Object k → Result Split
  split k obj = elim (to_unstructured k obj) [
    | err e ↦ err e
    | ok u ↦ elim (nested_status u) [
      | err e ↦ err e
      | ok status ↦ ok (if is_found status then remove_status u else u, status)
    ]
  ]

  -- `SetNestedField` and `FromUnstructured` after a first patch.
  unfoldable pub restore_status : (k : Kind) → Object k → Option Value → Result (Object k)
  restore_status k obj status = elim (to_unstructured k obj) [
    | err e ↦ err e
    | ok u ↦ elim (set_status u status) [ err e ↦ err e | ok u' ↦ from_unstructured k u' obj ]
  ]

abbrev pub status_result : OperationResult → OperationResult
status_result result =
    if is_updated result
    then OperationResult.updated_status
    else OperationResult.updated_status_only

module _ {W : Type 0} (c : Client W) (m : Machinery) (v : Converter) where
  open v use {Value, unstructured_eq, value_eq}

  -- The return after `c.Status().Patch`.
  unfoldable pub end_status : (k : Kind) → OperationResult → Result (Object k) × W → Operation × W
  end_status k result (err e, w) = ((result, some e), w)
  end_status k result (ok _, w) = ((status_result result, none), w)

  unfoldable pub send_status :
      (k : Kind) → Object k → OperationResult → Result (Object k) → W → Operation × W
  unfolding end_status
  send_status k base result (err e) w = ((result, some e), w)
  send_status k base result (ok obj) w = end_status k result (c.patch_status k base obj w)

  -- The second `if` of the function. `base` is the object before the mutation, and the status
  -- that the first patch replaced in `obj` is put back.
  unfoldable pub patch_second :
      (k : Kind)
      → Object k
      → Option Value
      → Option Value
      → OperationResult
      → Object k
      → W
      → Operation × W
  unfolding send_status
  patch_second k base before after result obj w =
      if (is_found before || is_found after) && ◌!=◌ ⦃e = option_eq ⦃e = value_eq⦄⦄ before after
      then send_status k base result
          (if is_updated result then restore_status v k obj after else ok obj) w
      else ((result, none), w)

  -- The rest after `c.Patch`.
  unfoldable pub after_first :
      (k : Kind) → Object k → Option Value → Option Value → Result (Object k) × W → Operation × W
  unfolding patch_second
  after_first k base before after (err e, w) = ((OperationResult.unchanged, some e), w)
  after_first k base before after (ok obj, w) =
      patch_second k base before after OperationResult.updated obj w

  -- Both patches: the first only if the two resources differ beside their status.
  unfoldable pub send_patches :
      (k : Kind) → Object k → Split v → Object k → Split v → W → Operation × W
  unfolding after_first
  send_patches k base (before, before_status) obj (after, after_status) w =
      if ◌!=◌ ⦃e = unstructured_eq⦄ before after
      then after_first k base before_status after_status (c.patch k base obj w)
      else patch_second k base before_status after_status OperationResult.unchanged obj w

  -- Everything between `Get` and the patches: the split before, the mutation, the split after.
  unfoldable pub prepare :
      (k : Kind)
      → ObjectKey
      → Option (MutateFn W k)
      → Object k
      → Call W (Split v × Object k × Split v)
  unfolding split
  prepare k key f base = do
    before ← lift (split v k base)
    obj ← elim f [ some g ↦ mutate c m k g key base | none ↦ pure base ]
    after ← lift (split v k obj)
    pure (before, obj, after)

  unfoldable pub send_prepared :
      (k : Kind) → Object k → Result (Split v × Object k × Split v) × W → Operation × W
  unfolding send_patches
  send_prepared k base (err e, w) = ((OperationResult.unchanged, some e), w)
  send_prepared k base (ok (before, obj, after), w) = send_patches k base before obj after w

  unfoldable pub patch_if_found :
      (k : Kind) → ObjectKey → Option (MutateFn W k) → Result (Object k) × W → Operation × W
  unfolding prepare send_prepared
  patch_if_found k key f (err e, w) =
      if m.is_not_found e
      then ((OperationResult.unchanged, none), w)
      else ((OperationResult.unchanged, some e), w)
  patch_if_found k key f (ok base, w) = send_prepared k base (prepare k key f base w)

  -- A nil `f` mutates nothing.
  unfoldable pub patch_if_exists : (k : Kind) → Object k → Option (MutateFn W k) → W → Operation × W
  unfolding patch_if_found
  patch_if_exists k obj f w = let key = c.object_key k obj in patch_if_found k key f (c.get k key w)
