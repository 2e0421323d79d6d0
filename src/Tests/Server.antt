-- ===== src/Tests/Server.antt =====
-- A host cluster in memory, as the API server of the examples.
use multi_tenants.Base.{
  false, ◌≡◌, ◌≢◌, refl, inl, inr, Option, none, some, Result, ok, err, Error, foreign, Call, arith,
  ◌==◌, if◌then◌else◌, string_eq,
}
use multi_tenants.Api.{
  Kind, Object, ObjectKey, ObjectKey_eq, Tenant, Namespace, Secret, Deployment, Service, meta_of,
}
use multi_tenants.Client.{Client}
use multi_tenants.Client.Server.{Lookup, IsLawfulClient, SameMeta, Stores, Creation, no_replicas}
use multi_tenants.Tests.Machines.{test_machinery}

abbrev pub Slots : Type 0 → Type 0
Slots A = ObjectKey → Option A

pub record Host : Type 0 where
  pub tenants : Slots Tenant
  pub namespaces : Slots Namespace
  pub secrets : Slots Secret
  pub deployments : Slots Deployment
  pub services : Slots Service

abbrev put : {A : Type 0} → ObjectKey → A → Slots A → Slots A
put key o slots slot = if key == slot then some o else slots slot

put-same : {A : Type 0} (key : ObjectKey) (o : A) (slots : Slots A) → put key o slots key ≡ some o
put-same key o slots = ground arith

put-other :
    {A : Type 0} (key slot : ObjectKey) (o : A) (slots : Slots A)
    → key ≢ slot
    → put key o slots slot ≡ slots slot
put-other key slot o slots differ = ground (arith, differ)

abbrev pub read : Lookup Host
read Kind.tenant key w = w.tenants key
read Kind.namespace key w = w.namespaces key
read Kind.secret key w = w.secrets key
read Kind.deployment key w = w.deployments key
read Kind.service key w = w.services key

abbrev pub write : (k : Kind) → ObjectKey → Object k → Host → Host
write Kind.tenant key o w = record w { tenants = put key o w.tenants }
write Kind.namespace key o w = record w { namespaces = put key o w.namespaces }
write Kind.secret key o w = record w { secrets = put key o w.secrets }
write Kind.deployment key o w = record w { deployments = put key o w.deployments }
write Kind.service key o w = record w { services = put key o w.services }

pub read-write_same :
    (k : Kind) (key : ObjectKey) (o : Object k) (w : Host) → read k key (write k key o w) ≡ some o
read-write_same Kind.tenant key o w = put-same key o w.tenants
read-write_same Kind.namespace key o w = put-same key o w.namespaces
read-write_same Kind.secret key o w = put-same key o w.secrets
read-write_same Kind.deployment key o w = put-same key o w.deployments
read-write_same Kind.service key o w = put-same key o w.services

read-write_other :
    (k j : Kind) (key slot : ObjectKey) (o : Object k) (w : Host)
    → (k ≡ j → key ≡ slot → ⊥)
    → read j slot (write k key o w) ≡ read j slot w
read-write_other Kind.tenant Kind.tenant key slot o w h = put-other key slot o w.tenants (h refl)
read-write_other Kind.tenant Kind.namespace key slot o w h = refl
read-write_other Kind.tenant Kind.secret key slot o w h = refl
read-write_other Kind.tenant Kind.deployment key slot o w h = refl
read-write_other Kind.tenant Kind.service key slot o w h = refl
read-write_other Kind.namespace Kind.tenant key slot o w h = refl
read-write_other Kind.namespace Kind.namespace key slot o w h =
    put-other key slot o w.namespaces (h refl)
read-write_other Kind.namespace Kind.secret key slot o w h = refl
read-write_other Kind.namespace Kind.deployment key slot o w h = refl
read-write_other Kind.namespace Kind.service key slot o w h = refl
read-write_other Kind.secret Kind.tenant key slot o w h = refl
read-write_other Kind.secret Kind.namespace key slot o w h = refl
read-write_other Kind.secret Kind.secret key slot o w h = put-other key slot o w.secrets (h refl)
read-write_other Kind.secret Kind.deployment key slot o w h = refl
read-write_other Kind.secret Kind.service key slot o w h = refl
read-write_other Kind.deployment Kind.tenant key slot o w h = refl
read-write_other Kind.deployment Kind.namespace key slot o w h = refl
read-write_other Kind.deployment Kind.secret key slot o w h = refl
read-write_other Kind.deployment Kind.deployment key slot o w h =
    put-other key slot o w.deployments (h refl)
read-write_other Kind.deployment Kind.service key slot o w h = refl
read-write_other Kind.service Kind.tenant key slot o w h = refl
read-write_other Kind.service Kind.namespace key slot o w h = refl
read-write_other Kind.service Kind.secret key slot o w h = refl
read-write_other Kind.service Kind.deployment key slot o w h = refl
read-write_other Kind.service Kind.service key slot o w h = put-other key slot o w.services (h refl)

abbrev fresh : (k : Kind) → Object k → Object k
fresh Kind.deployment o = record o { status = no_replicas }
fresh Kind.tenant o = o
fresh Kind.namespace o = o
fresh Kind.secret o = o
fresh Kind.service o = o

same_meta : (k : Kind) (o : Object k) → SameMeta (meta_of k o) (meta_of k o)
same_meta k o = record { name = refl; namespace = refl; owner_references = refl }

fresh-Stores : (k : Kind) (o : Object k) → Stores k o (fresh k o)
fresh-Stores Kind.tenant o = same_meta Kind.tenant o
fresh-Stores Kind.namespace o = same_meta Kind.namespace o
fresh-Stores Kind.secret o = (same_meta Kind.secret o, refl, refl)
fresh-Stores Kind.deployment o = (same_meta Kind.deployment o, refl, refl)
fresh-Stores Kind.service o = (same_meta Kind.service o, refl)

abbrev pub key_of : (k : Kind) → Object k → ObjectKey
key_of k o = record { namespace = (meta_of k o).namespace; name = (meta_of k o).name }

abbrev not_found : Error
not_found = foreign 404 "not found"

abbrev found : (k : Kind) → Option (Object k) → Result (Object k)
found k (some o) = ok o
found k none = err not_found

abbrev create_in : (k : Kind) → Option (Object k) → Object k → Call Host (Object k)
create_in k (some _) o w = (err (foreign 409 "exists"), w)
create_in k none o w = (ok (fresh k o), write k (key_of k o) (fresh k o) w)

abbrev store : (k : Kind) → Object k → Call Host (Object k)
store k o w = (ok o, write k (key_of k o) o w)

-- A patch of a tenant leaves its status, and one of the status all else.
abbrev patch_in : (k : Kind) → Object k → Object k → Call Host (Object k)
patch_in Kind.tenant base o w = store Kind.tenant (record o { status = base.status }) w
patch_in Kind.namespace base o w = store Kind.namespace o w
patch_in Kind.secret base o w = store Kind.secret o w
patch_in Kind.deployment base o w = store Kind.deployment o w
patch_in Kind.service base o w = store Kind.service o w

abbrev pub patch_status_in : (k : Kind) → Option (Object k) → Object k → Call Host (Object k)
patch_status_in Kind.tenant none o w = (err not_found, w)
patch_status_in Kind.tenant (some s) o w =
    let s' = record s { status = o.status } in
    (ok s', write Kind.tenant (key_of Kind.tenant o) s' w)
patch_status_in Kind.namespace _ o w = store Kind.namespace o w
patch_status_in Kind.secret _ o w = store Kind.secret o w
patch_status_in Kind.deployment _ o w = store Kind.deployment o w
patch_status_in Kind.service _ o w = store Kind.service o w

unfoldable pub test_client : Client Host
test_client = record {
  object_key = key_of;
  get = λ k key w. (found k (read k key w), w);
  create = λ k o w. create_in k (read k (key_of k o) w) o w;
  update = store;
  patch = patch_in;
  patch_status = λ k base o w. patch_status_in k (read k (key_of k o) w) o w;
  deep_equal = λ k a b. false;
}

found-ok : (k : Kind) (x : Option (Object k)) (o : Object k) → found k x ≡ ok o → x ≡ some o
found-ok k (some x) o h = cc
found-ok k none o h = cc

found-err : (k : Kind) (x : Option (Object k)) (e : Error) → found k x ≡ err e → x ≡ none
found-err k (some x) e h = cc
found-err k none e h = refl

create-frame_cases :
    (k j : Kind) (x : Option (Object k)) (o : Object k) (slot : ObjectKey) (w : Host)
    → (k ≡ j → key_of k o ≡ slot → ⊥)
    → read j slot (create_in k x o w).1 ≡ read j slot w
create-frame_cases k j (some _) o slot w h = refl
create-frame_cases k j none o slot w h = read-write_other k j (key_of k o) slot (fresh k o) w h

create-slot_cases :
    (k : Kind) (x : Option (Object k)) (o : Object k) (w : Host)
    → read k (key_of k o) w ≡ x
    → Creation read k (key_of k o) o w (create_in k x o w).1
create-slot_cases k (some _) o w h = inl refl
create-slot_cases k none o w h =
    inr (h, (fresh k o, read-write_same k (key_of k o) (fresh k o) w, fresh-Stores k o))

create-ok_cases :
    (k : Kind) (x : Option (Object k)) (o r : Object k) (w : Host)
    → (create_in k x o w).0 ≡ ok r
    → (o' : Object k) × (read k (key_of k o) (create_in k x o w).1 ≡ some o') × Stores k o o'
create-ok_cases k (some _) o r w h = cc
create-ok_cases k none o r w h =
    (fresh k o, read-write_same k (key_of k o) (fresh k o) w, fresh-Stores k o)

patch-frame :
    (k j : Kind) (base o : Object k) (slot : ObjectKey) (w : Host)
    → (k ≡ j → key_of k o ≡ slot → ⊥)
    → read j slot (patch_in k base o w).1 ≡ read j slot w
patch-frame Kind.tenant j base o slot w h = read-write_other Kind.tenant j _ slot _ w h
patch-frame Kind.namespace j base o slot w h = read-write_other Kind.namespace j _ slot o w h
patch-frame Kind.secret j base o slot w h = read-write_other Kind.secret j _ slot o w h
patch-frame Kind.deployment j base o slot w h = read-write_other Kind.deployment j _ slot o w h
patch-frame Kind.service j base o slot w h = read-write_other Kind.service j _ slot o w h

patch_status-frame :
    (k j : Kind) (x : Option (Object k)) (o : Object k) (slot : ObjectKey) (w : Host)
    → (k ≡ j → key_of k o ≡ slot → ⊥)
    → read j slot (patch_status_in k x o w).1 ≡ read j slot w
patch_status-frame Kind.tenant j none o slot w h = refl
patch_status-frame Kind.tenant j (some s) o slot w h = read-write_other Kind.tenant j _ slot _ w h
patch_status-frame Kind.namespace j x o slot w h = read-write_other Kind.namespace j _ slot o w h
patch_status-frame Kind.secret j x o slot w h = read-write_other Kind.secret j _ slot o w h
patch_status-frame Kind.deployment j x o slot w h = read-write_other Kind.deployment j _ slot o w h
patch_status-frame Kind.service j x o slot w h = read-write_other Kind.service j _ slot o w h

pub test_client-IsLawfulClient : IsLawfulClient test_client test_machinery read
unfolding test_client
test_client-IsLawfulClient = record {
  object_key_lem = λ k o. refl;
  get-reads = λ k j key slot w. refl;
  get-found = λ k key w o h. found-ok k (read k key w) o h;
  get-missing = λ k key w e h _. found-err k (read k key w) e h;
  create-frame = λ k j o slot w h. create-frame_cases k j (read k (key_of k o) w) o slot w h;
  create-slot = λ k o w. create-slot_cases k (read k (key_of k o) w) o w refl;
  create-ok = λ k o r w h. create-ok_cases k (read k (key_of k o) w) o r w h;
  update-frame = λ k j o slot w h. read-write_other k j (key_of k o) slot o w h;
  patch-frame = patch-frame;
  patch_status-frame =
      λ k j base o slot w h. patch_status-frame k j (read k (key_of k o) w) o slot w h;
}
