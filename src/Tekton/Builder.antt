-- ===== src/Tekton/Builder.antt =====
-- internal/tekton/pipeline_run_builder.go: `PipelineRunBuilder`. A method that chains on the
-- builder is a function from builders to builders.
mod Steps
pub mod Mounts
pub mod Meta
pub mod Objects
mod Tests
unfoldable pub use Steps.*
use mintmaker.Base.{
  ℕ, Bool, true, false, ◌||◌, Option, none, some, List, [], ◌∷◌, ◌++◌, Str, codes, String, str_eq,
  is_empty, contains, replace_byte, if◌then◌else◌, Dict, insert_all,
}
use mintmaker.Tekton.Types.{
  KeyToPath, Volume, VolumeSource, VolumeMount, Step, TaskSpec, Task, Param, TimeoutFields,
  PipelineRun, EnvVar,
}

-- `err` holds the errors that the multierror gathered.
pub record Builder : Type 0 where
  pub errors : List Str
  pub run : PipelineRun

pub record MountOptions : Type 0 where
  pub task_name : Str
  pub step_names : List Str
  pub read_only : Option Bool
  pub default_mode : Option ℕ
  pub optional : Option Bool

-- 0644
abbrev pub default_file_mode : ℕ
default_file_mode = 0o644

unfoldable pub new_mount_options : MountOptions
new_mount_options = record {
  task_name = codes "build";
  step_names = [];
  read_only = some true;
  default_mode = some default_file_mode;
  optional = some false;
}

abbrev pub with_task_name : Str → MountOptions → MountOptions
with_task_name name o = record o { task_name = name }

abbrev pub with_step_names : List Str → MountOptions → MountOptions
with_step_names names o = record o { step_names = names }

abbrev pub with_read_only : Bool → MountOptions → MountOptions
with_read_only read_only o = record o { read_only = some read_only }

abbrev pub with_default_mode : ℕ → MountOptions → MountOptions
with_default_mode mode o = record o { default_mode = some mode }

abbrev pub with_optional : Bool → MountOptions → MountOptions
with_optional optional o = record o { optional = some optional }

-- `&MountOptions{}`
abbrev empty_options : MountOptions
empty_options = record {
  task_name = [];
  step_names = [];
  read_only = none;
  default_mode = none;
  optional = none;
}

-- The defaults that `WithConfigMap` and `WithSecret` set on the options they are given.
unfoldable pub with_defaults : Option MountOptions → MountOptions
with_defaults none = record empty_options { task_name = codes "build"; read_only = some true }
with_defaults (some o) = record o {
  task_name = if is_empty o.task_name then codes "build" else o.task_name;
  read_only = elim o.read_only [ none ↦ some true | some b ↦ some b ];
}

-- `*opts.ReadOnly`, which the defaults have set
abbrev pub is_read_only : MountOptions → Bool
is_read_only o = elim o.read_only [ none ↦ true | some b ↦ b ]

unfoldable pub sanitize_volume_name : Str → Str
sanitize_volume_name = replace_byte b'.' b'-'

-- `len(names) == 0 || slices.Contains(names, name)`
unfoldable pub is_selected : List Str → Str → Bool
is_selected [] name = true
is_selected (n ∷ names) name = contains (n ∷ names) name

-- A step that the options select gets the mount.
unfoldable pub mount_step : List Str → VolumeMount → Step → Step
mount_step names mount step =
    if is_selected names step.name
    then record step { volume_mounts = step.volume_mounts ++ mount ∷ [] }
    else step

unfoldable pub mount_steps : List Str → VolumeMount → List Step → List Step
mount_steps names mount [] = []
mount_steps names mount (s ∷ steps) = mount_step names mount s ∷ mount_steps names mount steps

unfoldable pub mount_spec : List Str → Volume → VolumeMount → TaskSpec → TaskSpec
mount_spec names volume mount spec = record spec {
  steps = mount_steps names mount spec.steps;
  volumes = spec.volumes ++ volume ∷ [];
}

-- The loop over the tasks: the first task of that name that has a spec is changed by `f`, and
-- the loop breaks.
unfoldable pub update_task : Str → (TaskSpec → TaskSpec) → List Task → List Task
update_task name f [] = []
update_task name f (t ∷ tasks) =
    let rest = t ∷ update_task name f tasks in
    if str_eq t.name name
    then elim t.task_spec [
      | none ↦ rest
      | some spec ↦ record t { task_spec = some (f spec) } ∷ tasks
    ]
    else rest

unfoldable pub volume_mount : Str → Str → MountOptions → VolumeMount
volume_mount name path opts = record {
  name = name;
  mount_path = path;
  read_only = is_read_only opts;
}

-- `WithConfigMap`
unfoldable pub with_config_map :
    Str → Str → List KeyToPath → Option MountOptions → Builder → Builder
with_config_map name mount_path items options b =
    let opts = with_defaults options in
    let volume_name = codes "configmap-" ++ sanitize_volume_name name in
    let volume : Volume = record {
      name = volume_name;
      source = VolumeSource.config_map name items opts.optional opts.default_mode;
    } in
    record b {
      run = record b.run {
        tasks =
            update_task opts.task_name
              (mount_spec opts.step_names volume (volume_mount volume_name mount_path opts))
              b.run.tasks;
      };
    }

-- `WithSecret`; `suffix` is the random string that the call draws.
unfoldable pub with_secret :
    Str → Str → Str → List KeyToPath → Option MountOptions → Builder → Builder
with_secret suffix name mount_path items options b =
    let opts = with_defaults options in
    let volume_name = codes "secret-" ++ (sanitize_volume_name name ++ (codes "-" ++ suffix)) in
    let volume : Volume = record {
      name = volume_name;
      source = VolumeSource.secret name items opts.optional opts.default_mode;
    } in
    record b {
      run = record b.run {
        tasks =
            update_task opts.task_name
              (mount_spec opts.step_names volume (volume_mount volume_name mount_path opts))
              b.run.tasks;
      };
    }

unfoldable pub with_annotations : Dict Str → Builder → Builder
with_annotations annotations b = record b {
  run = record b.run { annotations = insert_all annotations b.run.annotations };
}

unfoldable pub with_labels : Dict Str → Builder → Builder
with_labels labels b = record b { run = record b.run { labels = insert_all labels b.run.labels } }

unfoldable pub with_params : List Param → Builder → Builder
with_params params b = record b { run = record b.run { params = b.run.params ++ params } }

unfoldable pub with_service_account : Str → Builder → Builder
with_service_account account b = record b { run = record b.run { service_account_name = account } }

-- `*timeouts == (tektonv1.TimeoutFields{})`
unfoldable pub is_zero_timeouts : TimeoutFields → Bool
is_zero_timeouts t = elim t.pipeline [
  | some _ ↦ false
  | none ↦ elim t.tasks [ some _ ↦ false | none ↦ elim t.finally [ some _ ↦ false | none ↦ true ] ]
]

-- one hour
abbrev pub default_timeouts : TimeoutFields
default_timeouts = record { pipeline = some 60; tasks = none; finally = none }

unfoldable pub with_timeouts : Option TimeoutFields → Builder → Builder
with_timeouts timeouts b = record b {
  run = record b.run {
    timeouts = elim timeouts [
      | none ↦ some default_timeouts
      | some t ↦ if is_zero_timeouts t then some default_timeouts else some t
    ];
  };
}

-- `*steps = append(*steps, step)`
unfoldable pub append_step : Step → TaskSpec → TaskSpec
append_step step spec = record spec { steps = spec.steps ++ step ∷ [] }

-- `WithKiteIntegration`
unfoldable pub with_kite_integration : Str → Builder → Builder
with_kite_integration api_url b = record b {
  run = record b.run {
    tasks = update_task (codes "build") (append_step (log_analyzer_step api_url)) b.run.tasks;
  };
}

-- `NewPipelineRunBuilder`; `env` is `os.Getenv`, where a variable that is not set is empty, and
-- `sanitizer` is the text of log_sanitizer.sh, which the build embeds.
unfoldable pub new_pipeline_run_builder : (Str → Str) → Str → Str → Str → Builder
new_pipeline_run_builder env sanitizer name namespace = record {
  errors = [];
  run = record {
    name = name;
    namespace = namespace;
    labels = [];
    annotations = [];
    finalizers = [];
    pipeline_workspaces = codes "shared-data" ∷ [];
    workspaces = codes "shared-data" ∷ [];
    tasks = build_task (base_steps (image_url env) (sanitizer_url env) sanitizer) ∷ [];
    service_account_name = [];
    timeouts = none;
    params = [];
    spec_status = [];
    conditions = [];
  };
}

-- `Build`
unfoldable pub build : Builder → PipelineRun × List Str
build b = (b.run, b.errors)
