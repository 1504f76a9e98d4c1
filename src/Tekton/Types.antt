-- ===== src/Tekton/Types.antt =====
-- The parts of Tekton's and Kubernetes' object types that internal/tekton and the controllers
-- fill or read. A pointer that may be nil is an `Option`, a map is a `Dict`.
use mintmaker.Base.{ℕ, Bool, Option, List, Str, Dict}

pub record KeyToPath : Type 0 where
  pub key : Str
  pub path : Str

pub data VolumeSource : Type 0 where
  config_map secret : Str → List KeyToPath → Option Bool → Option ℕ → VolumeSource

pub record Volume : Type 0 where
  pub name : Str
  pub source : VolumeSource

pub record VolumeMount : Type 0 where
  pub name : Str
  pub mount_path : Str
  pub read_only : Bool

-- A literal value, or `valueFrom.fieldRef`.
pub data EnvSource : Type 0 where
  value field_ref : Str → EnvSource

pub record EnvVar : Type 0 where
  pub name : Str
  pub source : EnvSource

pub record SecurityContext : Type 0 where
  pub drop : List Str
  pub run_as_non_root : Option Bool
  pub run_as_user : ℕ
  pub allow_privilege_escalation : Option Bool

-- The quantities of cpu and memory.
pub record Quantities : Type 0 where
  pub cpu : Str
  pub memory : Str

pub record Step : Type 0 where
  pub name : Str
  pub image : Str
  pub script : Str
  pub env : List EnvVar
  pub security_context : SecurityContext
  pub requests : Option Quantities
  pub limits : Option Quantities
  pub volume_mounts : List VolumeMount

pub record TaskSpec : Type 0 where
  pub workspaces : List Str
  pub steps : List Step
  pub volumes : List Volume

-- `workspaces` holds the pairs of a binding's name and the workspace.
pub record Task : Type 0 where
  pub name : Str
  pub workspaces : List (Str × Str)
  pub task_spec : Option TaskSpec

pub record Param : Type 0 where
  pub name : Str
  pub string_val : Str

-- Durations in minutes.
pub record TimeoutFields : Type 0 where
  pub pipeline : Option ℕ
  pub tasks : Option ℕ
  pub finally : Option ℕ

pub data ConditionStatus : Type 0 where
  status_true status_false status_unknown : ConditionStatus

pub record Condition : Type 0 where
  pub type : Str
  pub status : ConditionStatus
  pub reason : Str
  pub message : Str

-- `spec_status` is the requested status, such as a cancellation.
pub record PipelineRun : Type 0 where
  pub name : Str
  pub namespace : Str
  pub labels : Dict Str
  pub annotations : Dict Str
  pub finalizers : List Str
  pub pipeline_workspaces : List Str
  pub workspaces : List Str
  pub tasks : List Task
  pub service_account_name : Str
  pub timeouts : Option TimeoutFields
  pub params : List Param
  pub spec_status : Str
  pub conditions : List Condition
