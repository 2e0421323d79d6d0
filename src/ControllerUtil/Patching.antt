-- ===== src/ControllerUtil/Patching.antt =====
-- What `PatchIfExists` of pkg/controllerutil/controllerutil.go promises.
use multi_tenants.Base.{
  Bool, true, false, Option, some, Result, ok, err, Keeps, if◌then◌else◌, option_eq,
}
use multi_tenants.Api.{Kind, Object, ObjectKey, Machinery}
use multi_tenants.Client.{Client, Converter}
use multi_tenants.ControllerUtil.{OperationResult, MutateFn}
use multi_tenants.ControllerUtil.Preparing.{prepare-Keeps}
use multi_tenants.ControllerUtil.Patch.{
  Operation, Split, end_status, send_status, patch_second, after_first, send_patches, prepare,
  send_prepared, patch_if_found, patch_if_exists,
}

if-world :
    {W : Type 0} (P : W → Type 0) (b : Bool) (x y : Operation × W)
    → P x.1
    → P y.1
    → P (if b then x else y).1
if-world P true x y h g = h
if-world P false x y h g = g

module _ {W : Type 0} (c : Client W) (m : Machinery) (v : Converter) (k : Kind) where
  module _ (P : W → Type 0) (patches : (base o : Object k) → Keeps P (c.patch k base o))
      (patches_status : (base o : Object k) → Keeps P (c.patch_status k base o)) where
    end_status-world :
        (result : OperationResult) (r : Result (Object k)) (w : W)
        → P w
        → P (end_status c m v k result (r, w)).1
    unfolding end_status
    end_status-world result (ok o) w x = x
    end_status-world result (err e) w x = x

    send_status-world :
        (base : Object k) (result : OperationResult) (r : Result (Object k)) (w : W)
        → P w
        → P (send_status c m v k base result r w).1
    unfolding send_status
    send_status-world base result (err e) w x = x
    send_status-world base result (ok o) w x =
        end_status-world result (c.patch_status k base o w).0 (c.patch_status k base o w).1
          ((patches_status base o).run w x)

    patch_second-world :
        (base : Object k) (before after : Option v.Value) (result : OperationResult) (o : Object k)
        (w : W)
        → P w
        → P (patch_second c m v k base before after result o w).1
    unfolding patch_second
    patch_second-world base before after result o w x =
        if-world P _ _ _ (send_status-world base result _ w x) x

    after_first-world :
        (base : Object k) (before after : Option v.Value) (r : Result (Object k)) (w : W)
        → P w
        → P (after_first c m v k base before after (r, w)).1
    unfolding after_first
    after_first-world base before after (err e) w x = x
    after_first-world base before after (ok o) w x =
        patch_second-world base before after OperationResult.updated o w x

    send_patches-world :
        (base : Object k) (before : Split v) (o : Object k) (after : Split v) (w : W)
        → P w
        → P (send_patches c m v k base before o after w).1
    unfolding send_patches
    send_patches-world base (before, bs) o (after, as') w x =
        if-world P _ _ _
          (after_first-world base bs as' (c.patch k base o w).0 (c.patch k base o w).1
            ((patches base o).run w x))
          (patch_second-world base bs as' OperationResult.unchanged o w x)

    module _ (key : ObjectKey) (f : MutateFn W k) (mutates : (o : Object k) → Keeps P (f o)) where
      send_prepared-world :
          (base : Object k) (r : Result (Split v × Object k × Split v)) (w : W)
          → P w
          → P (send_prepared c m v k base (r, w)).1
      unfolding send_prepared
      send_prepared-world base (err e) w x = x
      send_prepared-world base (ok (before, o, after)) w x =
          send_patches-world base before o after w x

      patch_if_found-world :
          (r : Result (Object k)) (w : W) → P w → P (patch_if_found c m v k key (some f) (r, w)).1
      unfolding patch_if_found
      patch_if_found-world (err e) w x = if-world P _ _ _ x x
      patch_if_found-world (ok base) w x =
          send_prepared-world base (prepare c m v k key (some f) base w).0
            (prepare c m v k key (some f) base w).1
            ((prepare-Keeps c m v k f key base P mutates).run w x)

    -- Whatever the read, the mutation and the patches keep, the function keeps.
    pub patch_if_exists-world :
        (obj : Object k) (f : MutateFn W k)
        → ((key : ObjectKey) → Keeps P (c.get k key))
        → ((o : Object k) → Keeps P (f o))
        → (w : W) → P w
        → P (patch_if_exists c m v k obj (some f) w).1
    unfolding patch_if_exists
    patch_if_exists-world obj f reads mutates w x =
        patch_if_found-world (c.object_key k obj) f mutates (c.get k (c.object_key k obj) w).0
          (c.get k (c.object_key k obj) w).1 ((reads (c.object_key k obj)).run w x)
