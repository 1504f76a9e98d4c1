-- ===== src/Tekton/Builder/Mounts.antt =====
-- internal/tekton/pipeline_run_builder.go: a volume mount always names a volume of its task.
use mintmaker.Base.{
  Option, none, some, List, [], ◌∷◌, ◌++◌, Str, str_eq, All, All-append, ◌≡◌, refl, ◌⊎◌, inl, inr,
  Bool-cases, Dict,
}
use mintmaker.Tekton.Types.{
  KeyToPath, Volume, VolumeMount, Step, TaskSpec, Task, Param, TimeoutFields,
}
use mintmaker.Tekton.Builder.{
  Builder, MountOptions, is_selected, mount_step, mount_steps, mount_spec, update_task, append_step,
  volume_mount, with_config_map, with_secret, with_labels, with_annotations, with_params,
  with_service_account, with_timeouts, with_kite_integration, new_pipeline_run_builder,
  log_analyzer_step, base_steps,
}

-- A volume of that name is declared.
abbrev pub Declares : List Volume → Str → Type 0
Declares [] name = ⊥
Declares (v ∷ volumes) name = (v.name ≡ name) ⊎ Declares volumes name

abbrev pub StepMounted : List Volume → Step → Type 0
StepMounted volumes s = All (λ m. Declares volumes m.name) s.volume_mounts

abbrev pub SpecMounted : TaskSpec → Type 0
SpecMounted spec = All (StepMounted spec.volumes) spec.steps

abbrev pub SpecMounted? : Option TaskSpec → Type 0
SpecMounted? none = Unit
SpecMounted? (some spec) = SpecMounted spec

-- Every mount of every step of every task has its volume in that task.
abbrev pub IsMounted : Builder → Type 0
IsMounted b = All (λ t. SpecMounted? t.task_spec) b.run.tasks

-- The builders that the methods of Tekton.Builder make.
pub data Built : Builder → Type 0 where
  new :
      (env : Str → Str) (sanitizer name namespace : Str)
      → Built (new_pipeline_run_builder env sanitizer name namespace)
  config_map :
      {b : Builder} (name path : Str) (items : List KeyToPath) (opts : Option MountOptions)
      → Built b
      → Built (with_config_map name path items opts b)
  secret :
      {b : Builder} (suffix name path : Str) (items : List KeyToPath) (opts : Option MountOptions)
      → Built b
      → Built (with_secret suffix name path items opts b)
  labels : {b : Builder} (ls : Dict Str) → Built b → Built (with_labels ls b)
  annotations : {b : Builder} (ls : Dict Str) → Built b → Built (with_annotations ls b)
  params : {b : Builder} (ps : List Param) → Built b → Built (with_params ps b)
  service_account : {b : Builder} (account : Str) → Built b → Built (with_service_account account b)
  timeouts : {b : Builder} (t : Option TimeoutFields) → Built b → Built (with_timeouts t b)
  kite_integration :
      {b : Builder} (api_url : Str) → Built b → Built (with_kite_integration api_url b)

Declares-append :
    (vs : List Volume) (v : Volume) (name : Str) → Declares vs name → Declares (vs ++ v ∷ []) name
Declares-append [] v name h = absurd h
Declares-append (w ∷ vs) v name (inl e) = inl e
Declares-append (w ∷ vs) v name (inr h) = inr (Declares-append vs v name h)

Declares-last :
    (vs : List Volume) (v : Volume) (name : Str) → v.name ≡ name → Declares (vs ++ v ∷ []) name
Declares-last [] v name e = inl e
Declares-last (w ∷ vs) v name e = inr (Declares-last vs v name e)

mounts_weaken :
    (vs : List Volume) (v : Volume) (ms : List VolumeMount)
    → All (λ m. Declares vs m.name) ms
    → All (λ m. Declares (vs ++ v ∷ []) m.name) ms
mounts_weaken vs v [] h = tt
mounts_weaken vs v (m ∷ ms) h = (Declares-append vs v m.name h.0, mounts_weaken vs v ms h.1)

module _ (names : List Str) (v : Volume) (m : VolumeMount) (same : v.name ≡ m.name) where
  mount_step-mounted :
      (vs : List Volume) (s : Step)
      → StepMounted vs s
      → StepMounted (vs ++ v ∷ []) (mount_step names m s)
  unfolding mount_step
  mount_step-mounted vs s h = elim (Bool-cases (is_selected names s.name)) [
    | inl on ↦ rw on (
        All-append (λ k. Declares (vs ++ v ∷ []) k.name) s.volume_mounts (m ∷ [])
          (mounts_weaken vs v s.volume_mounts h) (Declares-last vs v m.name same, tt))
    | inr off ↦ rw off (mounts_weaken vs v s.volume_mounts h)
  ]

  mount_steps-mounted :
      (vs : List Volume) (steps : List Step)
      → All (StepMounted vs) steps
      → All (StepMounted (vs ++ v ∷ [])) (mount_steps names m steps)
  unfolding mount_steps
  mount_steps-mounted vs [] h = tt
  mount_steps-mounted vs (s ∷ steps) h =
      (mount_step-mounted vs s h.0, mount_steps-mounted vs steps h.1)

  mount_spec-mounted :
      (spec : TaskSpec) → SpecMounted spec → SpecMounted (mount_spec names v m spec)
  unfolding mount_spec
  mount_spec-mounted spec h = mount_steps-mounted spec.volumes spec.steps h

append_step-mounted :
    (s : Step) (spec : TaskSpec)
    → StepMounted spec.volumes s
    → SpecMounted spec
    → SpecMounted (append_step s spec)
unfolding append_step
append_step-mounted s spec h k = All-append (StepMounted spec.volumes) spec.steps (s ∷ []) k (h, tt)

module _ (name : Str) (f : TaskSpec → TaskSpec)
    (keep : (spec : TaskSpec) → SpecMounted spec → SpecMounted (f spec)) where
  update_head :
      (t : Task) (tasks : List Task) (o : Option TaskSpec)
      → t.task_spec ≡ o
      → All (λ u. SpecMounted? u.task_spec) (update_task name f tasks)
      → SpecMounted? o
      → All (λ u. SpecMounted? u.task_spec) tasks
      → All (λ u. SpecMounted? u.task_spec) (update_task name f (t ∷ tasks))
  unfolding update_task
  update_head t tasks none e rest h hs = elim (Bool-cases (str_eq t.name name)) [
    | inr other ↦ rw other (rw e tt, rest)
    | inl this ↦ rw (this, e) (rw e tt, rest)
  ]
  update_head t tasks (some spec) e rest h hs = elim (Bool-cases (str_eq t.name name)) [
    | inr other ↦ rw other (rw e h, rest)
    | inl this ↦ rw (this, e) (keep spec h, hs)
  ]

  update_task-mounted :
      (tasks : List Task)
      → All (λ t. SpecMounted? t.task_spec) tasks
      → All (λ t. SpecMounted? t.task_spec) (update_task name f tasks)
  update_task-mounted [] h = unfold update_task in tt
  update_task-mounted (t ∷ tasks) h =
      update_head t tasks t.task_spec refl (update_task-mounted tasks h.1) h.0 h.1

-- Whatever the methods that Built names are called with, and in whatever order, every volume mount of every step of
-- the run names a volume that its task declares.
pub Built-IsMounted : {b : Builder} → Built b → IsMounted b
unfolding new_pipeline_run_builder base_steps with_config_map with_secret with_labels
    with_annotations with_params with_service_account with_timeouts with_kite_integration
    volume_mount
Built-IsMounted (new env sanitizer name namespace) = ((tt, (tt, (tt, (tt, tt)))), tt)
Built-IsMounted (config_map {b = b} name path items opts k) =
    update_task-mounted _ _ (mount_spec-mounted _ _ _ refl) b.run.tasks (Built-IsMounted k)
Built-IsMounted (secret {b = b} suffix name path items opts k) =
    update_task-mounted _ _ (mount_spec-mounted _ _ _ refl) b.run.tasks (Built-IsMounted k)
Built-IsMounted (labels ls k) = Built-IsMounted k
Built-IsMounted (annotations ls k) = Built-IsMounted k
Built-IsMounted (params ps k) = Built-IsMounted k
Built-IsMounted (service_account account k) = Built-IsMounted k
Built-IsMounted (timeouts t k) = Built-IsMounted k
Built-IsMounted (kite_integration {b = b} api_url k) =
    update_task-mounted _ _ (λ spec h. append_step-mounted (log_analyzer_step api_url) spec tt h)
      b.run.tasks (Built-IsMounted k)
