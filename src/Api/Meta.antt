-- ===== src/Api/Meta.antt =====
-- metav1 types, as far as the source uses their fields.
use multi_tenants.Base.{ℕ, String, Option, List, Eq, string_eq}

-- Nanoseconds since Go's zero time.
abbrev pub Time : Type 0
Time = ℕ

abbrev pub Bytes : Type 0
Bytes = List ℕ

pub record OwnerReference : Type 0 where
  pub api_version : String
  pub kind : String
  pub name : String
  pub uid : String

pub record ObjectMeta : Type 0 where
  pub name : String
  pub namespace : String
  pub uid : String
  pub owner_references : List OwnerReference
  pub finalizers : List String
  pub deletion_timestamp : Option Time

pub record ObjectKey : Type 0 where
  pub namespace : String
  pub name : String

pub record Condition : Type 0 where
  pub type : String
  pub status : String
  pub last_transition_time : Time
  pub reason : String
  pub message : String

abbrev pub condition_true : String
condition_true = "True"

abbrev pub condition_false : String
condition_false = "False"

abbrev pub condition_unknown : String
condition_unknown = "Unknown"

key_dec : Discrete ObjectKey
key_dec = hlevel (string_eq.dec)

instance unfoldable pub ObjectKey_eq : Eq ObjectKey
unfolding key_dec
ObjectKey_eq = record { dec = key_dec }
