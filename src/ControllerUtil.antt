-- ===== src/ControllerUtil.antt =====
-- pkg/controllerutil/controllerutil.go.
pub mod Creating
pub mod Fresh
pub mod Updating
pub mod Preparing
pub mod Forms
pub mod Restoring
pub mod Storing
pub mod Stored
pub mod Patch
pub mod Patching
pub mod PatchTable
pub mod Quiet
use multi_tenants.Base.{
  Bool, true, false, not, ◌&&◌, ◌||◌, Option, none, some, Result, ok, err, Error, message, Call,
  pure, throw, lift, attempt, ◌>>=◌, ◌==◌, ◌!=◌, Eq, string_eq, option_eq, if◌then◌else◌,
}
use multi_tenants.Api.{Kind, Object, ObjectKey, ObjectKey_eq, Machinery}
use multi_tenants.Client.{Client, Converter}

-- `controllerutil.OperationResult` of controller-runtime.
pub data OperationResult : Type 0 where
  unchanged created updated updated_status updated_status_only : OperationResult

abbrev pub is_updated : OperationResult → Bool
is_updated OperationResult.updated = true
is_updated _ = false

-- A `MutateFn`, which changes the object that its closure holds.
abbrev pub MutateFn : Type 0 → Kind → Type 0
MutateFn W k = Object k → Call W (Object k)

abbrev pub mutate_error : Error
mutate_error = message "MutateFn cannot mutate object name and/or object namespace"

module _ {W : Type 0} (c : Client W) (m : Machinery) where
  unfoldable pub mutate : (k : Kind) → MutateFn W k → ObjectKey → Object k → Call W (Object k)
  mutate k f key obj = do
    obj' ← f obj
    if key != c.object_key k obj' then throw mutate_error else pure obj'

  -- The body of `if err := c.Get(…); err != nil`, and the return below it.
  create_unless_found :
      (k : Kind) → ObjectKey → Object k → MutateFn W k → Result (Object k) → Call W OperationResult
  unfolding mutate
  create_unless_found k key obj f (ok _) = pure OperationResult.unchanged
  create_unless_found k key obj f (err e) =
      if not (m.is_not_found e)
      then throw e
      else (do obj' ← mutate k f key obj; _ ← c.create k obj'; pure OperationResult.created)

  unfoldable pub create_if_not_exists :
      (k : Kind) → Object k → MutateFn W k → Call W OperationResult
  unfolding create_unless_found
  create_if_not_exists k obj f =
      let key = c.object_key k obj in attempt (c.get k key) (create_unless_found k key obj f)

  unfoldable pub update_if_found :
      (k : Kind) → ObjectKey → MutateFn W k → Result (Object k) → Call W OperationResult
  unfolding mutate
  update_if_found k key f (err e) =
      if m.is_not_found e then pure OperationResult.unchanged else throw e
  update_if_found k key f (ok existing) = do
    obj ← mutate k f key existing
    if c.deep_equal k existing obj
        then pure OperationResult.unchanged
        else (do _ ← c.update k obj; pure OperationResult.updated)

  unfoldable pub update_if_exists : (k : Kind) → Object k → MutateFn W k → Call W OperationResult
  unfolding update_if_found
  update_if_exists k obj f =
      let key = c.object_key k obj in attempt (c.get k key) (update_if_found k key f)
