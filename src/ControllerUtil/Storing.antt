-- ===== src/ControllerUtil/Storing.antt =====
-- What the API server holds after `PatchIfExists` of pkg/controllerutil/controllerutil.go.
use multi_tenants.Base.{
  Bool, true, false, ◌≢◌, ◌≡◌, refl, sym, ◌∙◌, subst, Option, none, some, Result, ok, err, arith,
  ◌!=◌, option_eq,
}
use multi_tenants.Api.{Kind, Object, ObjectKey, ObjectKey_eq, Machinery, meta_of}
use multi_tenants.Client.{Client, Converter}
use multi_tenants.Client.Server.{Lookup}
use multi_tenants.ControllerUtil.{OperationResult}
use multi_tenants.ControllerUtil.Patch.{Split, split, send_patches}
use multi_tenants.ControllerUtil.Forms.{IsForm, split-IsForm, IsForm-split}
use multi_tenants.ControllerUtil.Restoring.{IsLawfulConverter, with_status-ok}
use multi_tenants.ControllerUtil.PatchTable.{
  resource_only, status_sent, resend, with_status, resource_then_status, expected_patches,
  send_patches_table,
}

-- The server answers a patch with the object that it then holds: a patch of the resource changes
-- all but the status, one of the status that alone. An object that is being deleted may go.
pub record IsLawfulPatch {W : Type 0} (c : Client W) (v : Converter) (lookup : Lookup W) (k : Kind)
    : Type 0 where
  pub patch-ok :
      (base o r : Object k) (before after : v.Unstructured × Option v.Value) (w : W)
      → lookup k (c.object_key k o) w ≡ some base
      → IsForm v k base before
      → IsForm v k o after
      → (meta_of k o).deletion_timestamp ≡ none
      → (c.patch k base o w).0 ≡ ok r
      → (lookup k (c.object_key k o) (c.patch k base o w).1 ≡ some r)
        × (IsForm v k r (after.0, before.1))
        × (c.object_key k r ≡ c.object_key k o)
  pub patch_status-ok :
      (key : ObjectKey) (base held o r : Object k)
      (before now after : v.Unstructured × Option v.Value) (w : W)
      → c.object_key k o ≡ key
      → lookup k key w ≡ some held
      → IsForm v k base before
      → IsForm v k held now
      → now.1 ≡ before.1
      → IsForm v k o after
      → (c.patch_status k base o w).0 ≡ ok r
      → (lookup k key (c.patch_status k base o w).1 ≡ some r) × (IsForm v k r (now.0, after.1))
  pub converter : IsLawfulConverter c v k

module _ {W : Type 0} (c : Client W) (m : Machinery) (v : Converter) (lookup : Lookup W) (k : Kind)
    (lawful : IsLawfulPatch c v lookup k) where
  -- The answers to patches, for what `split` gives.
  patch_split :
      (base o r : Object k) (before after : Split v) (w : W)
      → lookup k (c.object_key k o) w ≡ some base
      → split v k base ≡ ok before
      → split v k o ≡ ok after
      → (meta_of k o).deletion_timestamp ≡ none
      → (c.patch k base o w).0 ≡ ok r
      → (lookup k (c.object_key k o) (c.patch k base o w).1 ≡ some r)
        × (split v k r ≡ ok (after.0, before.1))
        × (c.object_key k r ≡ c.object_key k o)
  patch_split base o r before after w held sb so live sent =
      let (held', form, key) =
        lawful.patch-ok base o r before after w held (split-IsForm v k base before sb)
          (split-IsForm v k o after so) live sent in
      (held', IsForm-split v k r (after.0, before.1) form, key)

  patch_status_split :
      (key : ObjectKey) (base held o r : Object k) (before now after : Split v) (w : W)
      → c.object_key k o ≡ key
      → lookup k key w ≡ some held
      → split v k base ≡ ok before
      → split v k held ≡ ok now
      → now.1 ≡ before.1
      → split v k o ≡ ok after
      → (c.patch_status k base o w).0 ≡ ok r
      → (lookup k key (c.patch_status k base o w).1 ≡ some r) × (split v k r ≡ ok (now.0, after.1))
  patch_status_split key base held o r before now after w same there sb sn q so sent =
      let (held', form) =
        lawful.patch_status-ok key base held o r before now after w same there
          (split-IsForm v k base before sb) (split-IsForm v k held now sn) q
          (split-IsForm v k o after so) sent in
      (held', IsForm-split v k r (now.0, after.1) form)

  -- The server holds an object of that unstructured form.
  abbrev pub Stores : ObjectKey → Split v → W → Type 0
  Stores key form w = (r : Object k) × (lookup k key w ≡ some r) × (split v k r ≡ ok form)

  same_form : (a b : Split v) → a.0 ≡ b.0 → a.1 ≡ b.1 → ◌≡◌ {A = Result (Split v)} (ok a) (ok b)
  same_form (x, y) (x', y') e e' = cc

  resource_same : (a b : v.Unstructured) → ◌!=◌ ⦃e = v.unstructured_eq⦄ a b ≡ false → a ≡ b
  resource_same a b h = ground arith

  status_same : (a b : Option v.Value) → ◌!=◌ ⦃e = option_eq ⦃e = v.value_eq⦄⦄ a b ≡ false → a ≡ b
  status_same a b h = ground arith

  status_sent-Stores :
      (P : W → Type 0) (before after : OperationResult) (x : Result (Object k) × W)
      → ((r : Object k) → x.0 ≡ ok r → P x.1)
      → (status_sent c m v k before after x).0.1 ≡ none
      → P (status_sent c m v k before after x).1
  status_sent-Stores P before after (ok r, w) f h = f r refl
  status_sent-Stores P before after (err e, w) f h = cc

  resource_only-Stores :
      (P : W → Type 0) (x : Result (Object k) × W)
      → ((r : Object k) → x.0 ≡ ok r → P x.1)
      → (resource_only c m v k x).0.1 ≡ none
      → P (resource_only c m v k x).1
  resource_only-Stores P (ok r, w) f h = f r refl
  resource_only-Stores P (err e, w) f h = cc

  resend-Stores :
      (P : W → Type 0) (base : Object k) (w : W) (x : Result (Object k))
      → ((o r : Object k)
          → x ≡ ok o
          → (c.patch_status k base o w).0 ≡ ok r
          → P (c.patch_status k base o w).1)
      → (resend c m v k base w x).0.1 ≡ none
      → P (resend c m v k base w x).1
  resend-Stores P base w (ok o) f h =
      status_sent-Stores P _ _ (c.patch_status k base o w) (λ r e. f o r refl e) h
  resend-Stores P base w (err e) f h = cc

  resource_then_status-Stores :
      (P : W → Type 0) (base : Object k) (status : Option v.Value) (x : Result (Object k) × W)
      → ((s o r : Object k)
          → x.0 ≡ ok s
          → with_status c m v k s status ≡ ok o
          → (c.patch_status k base o x.1).0 ≡ ok r
          → P (c.patch_status k base o x.1).1)
      → (resource_then_status c m v k base status x).0.1 ≡ none
      → P (resource_then_status c m v k base status x).1
  resource_then_status-Stores P base status (ok s, w) f h =
      resend-Stores P base w (with_status c m v k s status) (λ o r e q. f s o r refl e q) h
  resource_then_status-Stores P base status (err e, w) f h = cc

  status_differ : (a b : Option v.Value) → ◌!=◌ ⦃e = option_eq ⦃e = v.value_eq⦄⦄ a b ≡ true → a ≢ b
  status_differ a b h = ground arith

  module _ (base o : Object k) (before after : Split v) (w : W)
      (held : lookup k (c.object_key k o) w ≡ some base) (split_base : split v k base ≡ ok before)
      (split_o : split v k o ≡ ok after) (live : (meta_of k o).deletion_timestamp ≡ none) where
    abbrev Done : W → Type 0
    Done = Stores (c.object_key k o) after

    both_patches :
        (s o' r : Object k)
        → (c.patch k base o w).0 ≡ ok s
        → before.1 ≢ after.1
        → with_status c m v k s after.1 ≡ ok o'
        → (c.patch_status k base o' (c.patch k base o w).1).0 ≡ ok r
        → Done (c.patch_status k base o' (c.patch k base o w).1).1
    both_patches s o' r sent differ restored sent' =
        let (held', form, same) =
          patch_split base o s before after w held split_base split_o live sent in
        let (form', same') =
          with_status-ok c m v k lawful.converter s o' base o (after.0, before.1) before after form
            split_base split_o differ restored in
        let (held'', form'') =
          patch_status_split (c.object_key k o) base s o' r before (after.0, before.1) after _
            (same' ∙ same) held' split_base form refl form' sent' in
        (r, held'', form'')

    patches-Stores :
        (x y : Bool)
        → (x ≡ false → before.0 ≡ after.0)
        → (y ≡ false → before.1 ≡ after.1)
        → (y ≡ true → before.1 ≢ after.1)
        → (expected_patches c m v k x y base o after.1 w).0.1 ≡ none
        → Done (expected_patches c m v k x y base o after.1 w).1
    patches-Stores false false f g d h =
        (base, held, split_base ∙ same_form before after (f refl) (g refl))
    patches-Stores false true f g d h =
        status_sent-Stores Done _ _ (c.patch_status k base o w)
          (λ r e.
            let (held', form) =
              patch_status_split (c.object_key k o) base base o r before before after w refl held
                split_base split_base refl split_o e in
            (r, held', form ∙ same_form (before.0, after.1) after (f refl) refl))
          h
    patches-Stores true false f g d h =
        resource_only-Stores Done (c.patch k base o w)
          (λ r e.
            let (held', form, _) =
              patch_split base o r before after w held split_base split_o live e in
            (r, held', form ∙ same_form (after.0, before.1) after refl (g refl)))
          h
    patches-Stores true true f g d h =
        resource_then_status-Stores Done base after.1 (c.patch k base o w)
          (λ s o' r sent restored sent'. both_patches s o' r sent (d refl) restored sent') h

    pub send_patches-Stores :
        (send_patches c m v k base before o after w).0.1 ≡ none
        → Done (send_patches c m v k base before o after w).1
    send_patches-Stores h =
        subst (λ z. z.0.1 ≡ none → Done z.1)
          (sym (send_patches_table c m v k base o before after w))
          (patches-Stores _ _ (resource_same before.0 after.0) (status_same before.1 after.1)
            (status_differ before.1 after.1))
          h
