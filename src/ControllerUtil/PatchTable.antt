-- ===== src/ControllerUtil/PatchTable.antt =====
-- Which patches `PatchIfExists` (pkg/controllerutil/controllerutil.go) sends.
use multi_tenants.Base.{
  Bool, true, false, ◌!=◌, ◌≡◌, ◌≢◌, refl, ◌∙◌, ap, Option, none, some, Result, ok, err, arith,
  option_eq, if◌then◌else◌,
}
use multi_tenants.Api.{Kind, Object, Machinery}
use multi_tenants.Client.{Client, Converter}
use multi_tenants.ControllerUtil.{OperationResult, is_updated}
use multi_tenants.ControllerUtil.Patch.{
  Operation, Split, restore_status, end_status, send_status, patch_second, after_first,
  send_patches,
}

module _ {W : Type 0} (c : Client W) (m : Machinery) (v : Converter) (k : Kind) where
  -- A first patch alone: its error, or an update.
  abbrev pub resource_only : Result (Object k) × W → Operation × W
  resource_only (err e, w) = ((OperationResult.unchanged, some e), w)
  resource_only (ok _, w) = ((OperationResult.updated, none), w)

  -- A status patch: the result that stood before it with its error, or the result after it.
  abbrev pub status_sent : OperationResult → OperationResult → Result (Object k) × W → Operation × W
  status_sent before after (err e, w) = ((before, some e), w)
  status_sent before after (ok _, w) = ((after, none), w)

  -- The status patch of an object that may have failed to be made.
  abbrev pub resend : Object k → W → Result (Object k) → Operation × W
  resend base w (err e) = ((OperationResult.updated, some e), w)
  resend base w (ok o) =
      status_sent OperationResult.updated OperationResult.updated_status (c.patch_status k base o w)

  -- The object whose unstructured form has the status set.
  abbrev pub with_status : Object k → Option v.Value → Result (Object k)
  with_status o status = elim (v.to_unstructured k o) [
    | err e ↦ err e
    | ok u ↦ elim (v.set_status u status) [ err e ↦ err e | ok u' ↦ v.from_unstructured k u' o ]
  ]

  -- A first patch and, if it succeeds, the status patch of what it returned, its status set.
  abbrev pub resource_then_status :
      Object k → Option v.Value → Result (Object k) × W → Operation × W
  resource_then_status base status (err e, w) = ((OperationResult.unchanged, some e), w)
  resource_then_status base status (ok o, w) = resend base w (with_status o status)

  restore-with_status :
      (o : Object k) (status : Option v.Value) → restore_status v k o status ≡ with_status o status
  unfolding restore_status
  restore-with_status o status = refl

  end_unchanged :
      (x : Result (Object k) × W)
      → end_status c m v k OperationResult.unchanged x
        ≡ status_sent OperationResult.unchanged OperationResult.updated_status_only x
  unfolding end_status
  end_unchanged (err e, w) = refl
  end_unchanged (ok o, w) = refl

  end_updated :
      (x : Result (Object k) × W)
      → end_status c m v k OperationResult.updated x
        ≡ status_sent OperationResult.updated OperationResult.updated_status x
  unfolding end_status
  end_updated (err e, w) = refl
  end_updated (ok o, w) = refl

  send-resend :
      (base : Object k) (x : Result (Object k)) (w : W)
      → send_status c m v k base OperationResult.updated x w ≡ resend base w x
  unfolding send_status
  send-resend base (err e) w = refl
  send-resend base (ok o) w = end_updated (c.patch_status k base o w)

  patch_second_same :
      (base : Object k) (before after : Option v.Value) (r : OperationResult) (o : Object k) (w : W)
      → before ≡ after
      → patch_second c m v k base before after r o w ≡ ((r, none), w)
  unfolding patch_second
  patch_second_same base none none r o w same = refl
  patch_second_same base none (some a) r o w same = cc
  patch_second_same base (some b) none r o w same = cc
  patch_second_same base (some b) (some a) r o w same = ground (arith, same)

  patch_second_differ :
      (base : Object k) (before after : Option v.Value) (r : OperationResult) (o : Object k) (w : W)
      → before ≢ after
      → patch_second c m v k base before after r o w
        ≡ send_status c m v k base r (if is_updated r then restore_status v k o after else ok o) w
  unfolding patch_second
  patch_second_differ base none none r o w differ = absurd (differ refl)
  patch_second_differ base none (some a) r o w differ = ground (arith, differ)
  patch_second_differ base (some b) none r o w differ = ground (arith, differ)
  patch_second_differ base (some b) (some a) r o w differ = ground (arith, differ)

  after_first_same :
      (base : Object k) (before after : Option v.Value) (r : Result (Object k) × W)
      → before ≡ after
      → after_first c m v k base before after r ≡ resource_only r
  unfolding after_first
  after_first_same base before after (err e, w) same = refl
  after_first_same base before after (ok o, w) same =
      patch_second_same base before after OperationResult.updated o w same

  after_first_differ :
      (base : Object k) (before after : Option v.Value) (r : Result (Object k) × W)
      → before ≢ after
      → after_first c m v k base before after r ≡ resource_then_status base after r
  unfolding after_first
  after_first_differ base before after (err e, w) differ = refl
  after_first_differ base before after (ok o, w) differ =
      patch_second_differ base before after OperationResult.updated o w differ
      ∙ send-resend base (restore_status v k o after) w
      ∙ ap (resend base w) (restore-with_status o after)

  -- What the two patches do, by what the mutation changed: `differ` says of the resource without
  -- its status, and of the status, whether they differ from what was read.
  abbrev pub expected_patches :
      Bool → Bool → Object k → Object k → Option v.Value → W → Operation × W
  expected_patches false false base o status w = ((OperationResult.unchanged, none), w)
  expected_patches false true base o status w =
      status_sent OperationResult.unchanged OperationResult.updated_status_only
        (c.patch_status k base o w)
  expected_patches true false base o status w = resource_only (c.patch k base o w)
  expected_patches true true base o status w = resource_then_status base status (c.patch k base o w)

  status_same : (a b : Option v.Value) → ◌!=◌ ⦃e = option_eq ⦃e = v.value_eq⦄⦄ a b ≡ false → a ≡ b
  status_same a b h = ground arith

  status_differ : (a b : Option v.Value) → ◌!=◌ ⦃e = option_eq ⦃e = v.value_eq⦄⦄ a b ≡ true → a ≢ b
  status_differ a b h = ground arith

  patches_by_difference :
      (base o : Object k) (bs as' : Option v.Value) (w : W) (x y : Bool)
      → (y ≡ false → bs ≡ as')
      → (y ≡ true → bs ≢ as')
      → (if x
          then after_first c m v k base bs as' (c.patch k base o w)
          else patch_second c m v k base bs as' OperationResult.unchanged o w)
        ≡ expected_patches x y base o as' w
  unfolding send_status
  patches_by_difference base o bs as' w false false s d =
      patch_second_same base bs as' OperationResult.unchanged o w (s refl)
  patches_by_difference base o bs as' w false true s d =
      patch_second_differ base bs as' OperationResult.unchanged o w (d refl)
      ∙ end_unchanged (c.patch_status k base o w)
  patches_by_difference base o bs as' w true false s d =
      after_first_same base bs as' (c.patch k base o w) (s refl)
  patches_by_difference base o bs as' w true true s d =
      after_first_differ base bs as' (c.patch k base o w) (d refl)

  -- What PatchIfExists sends is the table by what the mutation changed: nothing, the status
  -- patch alone, the resource patch alone, or the resource patch and, only if that succeeds, the
  -- status patch of its result with the mutated status set in its unstructured form. Each case
  -- has its operation result, with and without an error: unchanged, updated, updated with its
  -- status, or updated in its status only.
  pub send_patches_table :
      (base o : Object k) (before after : Split v) (w : W)
      → send_patches c m v k base before o after w
        ≡ expected_patches
            (◌!=◌ ⦃e = v.unstructured_eq⦄ before.0 after.0)
            (◌!=◌ ⦃e = option_eq ⦃e = v.value_eq⦄⦄ before.1 after.1)
            base
            o
            after.1
            w
  unfolding send_patches
  send_patches_table base o (b, bs) (a, as') w =
      patches_by_difference base o bs as' w _ _ (status_same bs as') (status_differ bs as')
