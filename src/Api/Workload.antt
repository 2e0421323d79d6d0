-- ===== src/Api/Workload.antt =====
-- The parts of Deployments and Services that the source fills in.
use multi_tenants.Base.{ℕ, String, Bool, Option, List}

abbrev pub Labels : Type 0
Labels = List (String × String)

-- `intstr.IntOrString`
pub data IntOrString : Type 0 where
  from_int : ℕ → IntOrString
  from_string : String → IntOrString

pub record HttpGetAction : Type 0 where
  pub host : String
  pub path : String
  pub port : IntOrString
  pub scheme : String

pub record Probe : Type 0 where
  pub http_get : HttpGetAction
  pub initial_delay_seconds : ℕ
  pub period_seconds : ℕ
  pub timeout_seconds : ℕ
  pub success_threshold : ℕ
  pub failure_threshold : ℕ

pub record VolumeMount : Type 0 where
  pub name : String
  pub mount_path : String
  pub read_only : Bool

pub record Container : Type 0 where
  pub name : String
  pub image : String
  pub image_pull_policy : String
  pub command : List String
  pub volume_mounts : List VolumeMount
  pub liveness_probe : Option Probe
  pub readiness_probe : Option Probe
  pub startup_probe : Option Probe

-- A volume whose source is a secret.
pub record Volume : Type 0 where
  pub name : String
  pub secret_name : String

pub record PodTemplateSpec : Type 0 where
  pub labels : Labels
  pub containers : List Container
  pub volumes : List Volume

pub record DeploymentSpec : Type 0 where
  pub replicas : Option ℕ
  pub match_labels : Labels
  pub template : PodTemplateSpec

pub record DeploymentStatus : Type 0 where
  pub replicas : ℕ
  pub ready_replicas : ℕ

pub record ServicePort : Type 0 where
  pub name : String
  pub protocol : String
  pub port : ℕ
  pub target_port : IntOrString

pub record ServiceSpec : Type 0 where
  pub selector : Labels
  pub ports : List ServicePort
