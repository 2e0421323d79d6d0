-- ===== src/Client/Server.antt =====
-- What the manager relies on of the API server behind a client, while nobody else writes.
use multi_tenants.Base.{true, ◌≡◌, ◌⊎◌, Option, none, some, ok, err, Error}
use multi_tenants.Api.{Kind, Object, ObjectKey, ObjectMeta, DeploymentStatus, Machinery, meta_of}
use multi_tenants.Client.{Client}

-- The metadata that a client sends is stored as it is; the server adds a UID.
pub record SameMeta (a b : ObjectMeta) : Type 0 where
  pub name : b.name ≡ a.name
  pub namespace : b.namespace ≡ a.namespace
  pub owner_references : b.owner_references ≡ a.owner_references

abbrev pub no_replicas : DeploymentStatus
no_replicas = record { replicas = 0; ready_replicas = 0 }

-- `o'` is what the server stores when it is sent `o` in a create call. A new Deployment has no
-- status yet.
abbrev pub Stores : (k : Kind) → Object k → Object k → Type 0
Stores Kind.tenant o o' = SameMeta o.object_meta o'.object_meta
Stores Kind.namespace o o' = SameMeta o.object_meta o'.object_meta
Stores Kind.secret o o' =
    SameMeta o.object_meta o'.object_meta × (o'.type ≡ o.type) × (o'.contents ≡ o.contents)
Stores Kind.deployment o o' =
    SameMeta o.object_meta o'.object_meta × (o'.spec ≡ o.spec) × (o'.status ≡ no_replicas)
Stores Kind.service o o' = SameMeta o.object_meta o'.object_meta × (o'.spec ≡ o.spec)

-- What the server holds of each kind under each key.
abbrev pub Lookup : Type 0 → Type 0
Lookup W = (k : Kind) → ObjectKey → W → Option (Object k)

-- From the world `w` to `w'`, nothing changes at the slot of `key` or an object like `o` is new.
abbrev pub Creation : {W : Type 0} → Lookup W → (k : Kind) → ObjectKey → Object k → W → W → Type 0
Creation lookup k key o w w' =
    (lookup k key w' ≡ lookup k key w)
    ⊎ ((lookup k key w ≡ none) × ((o' : Object k) × (lookup k key w' ≡ some o') × Stores k o o'))

pub record IsLawfulClient {W : Type 0} (c : Client W) (m : Machinery) (lookup : Lookup W)
    : Type 0 where
  pub object_key_lem :
      (k : Kind) (o : Object k)
      → c.object_key k o ≡ record { namespace = (meta_of k o).namespace; name = (meta_of k o).name }
  pub get-reads :
      (k j : Kind) (key slot : ObjectKey) (w : W)
      → lookup j slot (c.get k key w).1 ≡ lookup j slot w
  pub get-found :
      (k : Kind) (key : ObjectKey) (w : W) (o : Object k)
      → (c.get k key w).0 ≡ ok o
      → lookup k key w ≡ some o
  pub get-missing :
      (k : Kind) (key : ObjectKey) (w : W) (e : Error)
      → (c.get k key w).0 ≡ err e
      → m.is_not_found e ≡ true
      → lookup k key w ≡ none
  -- A create call touches one slot; a failed one may have done its work all the same.
  pub create-frame :
      (k j : Kind) (o : Object k) (slot : ObjectKey) (w : W)
      → (k ≡ j → c.object_key k o ≡ slot → ⊥)
      → lookup j slot (c.create k o w).1 ≡ lookup j slot w
  pub create-slot :
      (k : Kind) (o : Object k) (w : W)
      → Creation lookup k (c.object_key k o) o w (c.create k o w).1
  pub create-ok :
      (k : Kind) (o r : Object k) (w : W)
      → (c.create k o w).0 ≡ ok r
      → (o' : Object k) × (lookup k (c.object_key k o) (c.create k o w).1 ≡ some o') × Stores k o o'
  -- An update touches the slot of the object that is sent.
  pub update-frame :
      (k j : Kind) (o : Object k) (slot : ObjectKey) (w : W)
      → (k ≡ j → c.object_key k o ≡ slot → ⊥)
      → lookup j slot (c.update k o w).1 ≡ lookup j slot w
  -- A patch, of a resource or of its status, touches the slot of the patched object alone.
  pub patch-frame :
      (k j : Kind) (base o : Object k) (slot : ObjectKey) (w : W)
      → (k ≡ j → c.object_key k o ≡ slot → ⊥)
      → lookup j slot (c.patch k base o w).1 ≡ lookup j slot w
  pub patch_status-frame :
      (k j : Kind) (base o : Object k) (slot : ObjectKey) (w : W)
      → (k ≡ j → c.object_key k o ≡ slot → ⊥)
      → lookup j slot (c.patch_status k base o w).1 ≡ lookup j slot w
