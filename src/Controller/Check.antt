-- ===== src/Controller/Check.antt =====
-- internal/controller/dependencyupdatecheck_controller.go: `Reconcile` of the reconciler of
-- DependencyUpdateCheck objects, and what it calls besides `createPipelineRun`.
pub mod Schedule
pub mod Once
pub mod Guards
pub mod Marked
use mintmaker.Base.{
  ℕ, Bool, true, false, not, Option, none, some, List, [], ◌∷◌, ◌++◌, Str, codes, str_eq, contains,
  has_value, insert, is_empty, Error, Result, ok, err, not_found, failure, if◌then◌else◌,
}
use mintmaker.Utils.Names.{repo_branch_key, repo_branch_hash}
use mintmaker.Tekton.Types.{PipelineRun, Condition, ConditionStatus}
use mintmaker.Cluster.Objects.{
  Secret, AppComponent, DependencyUpdateCheck, NamespaceSpec, Object, mintmaker_namespace,
  processed_annotation, disabled_annotation, kite_token_label, hash_label,
}
use mintmaker.Cluster.Client.{
  Client, Action, World, Effect, History, ◌>>=◌, ◌>>◌, pure, raise, lift, attempt, asking, perform,
  emit, accepted,
}
use mintmaker.Component.Interface.{GitComponent}
use mintmaker.Controller.Create.{Reconciler, draw_string, current_time}
use mintmaker.Controller.Run.{create_pipeline_run}
use mintmaker.Controller.Filter.{filtered_components}

-- `c.Status != corev1.ConditionUnknown`
unfoldable pub is_known : ConditionStatus → Bool
is_known ConditionStatus.status_unknown = false
is_known ConditionStatus.status_true = true
is_known ConditionStatus.status_false = true

-- The loop of `pipelineRunCompleted` over the conditions.
unfoldable pub conditions_completed : List Condition → Bool
conditions_completed [] = false
conditions_completed (c ∷ cs) =
    if str_eq c.type (codes "Succeeded") then is_known c.status else conditions_completed cs

-- `pipelineRunCompleted`
unfoldable pub pipeline_run_completed : PipelineRun → Bool
unfolding conditions_completed
pipeline_run_completed run = conditions_completed run.conditions

unfoldable pub any_active : List PipelineRun → Bool
any_active [] = false
any_active (run ∷ runs) = if not (pipeline_run_completed run) then true else any_active runs

-- `hasActivePipelineRun`
unfoldable pub has_active_pipeline_run : Reconciler → Str → Str → Str → Action Bool
has_active_pipeline_run r host repository branch = do
  runs ← asking (λ h.
      r.client.list_pipeline_runs h mintmaker_namespace hash_label
        (repo_branch_hash r.sha256 host repository branch))
  pure (any_active runs)

-- The name `renovate-<timestamp>-<8 random characters>`.
unfoldable pub run_name : Str → Str → Str
run_name timestamp suffix = codes "renovate-" ++ (timestamp ++ (codes "-" ++ suffix))

-- One attempt to create a run, and its count.
unfoldable pub schedule_run : Reconciler → Str → Str → GitComponent → Str → Action (Unit {0})
schedule_run r timestamp kite_secret comp branch = do
  suffix ← draw_string r.platform 8
  result ← attempt (create_pipeline_run r (run_name timestamp suffix) comp branch kite_secret)
  emit (Effect.count_run (accepted result))

-- A new branch: its run is created unless one is active, or the lookup failed.
unfoldable pub unless_active : Action (Unit {0}) → Result Bool → Action (Unit {0})
unless_active schedule (err e) = pure tt
unless_active schedule (ok true) = pure tt
unless_active schedule (ok false) = schedule

-- `fmt.Sprintf("%s/%s@%s", host, repository, branchName)`
abbrev pub component_key : GitComponent → Str → Str
component_key comp branch = repo_branch_key comp.host comp.repository branch

-- The body of the inner loop for a key that is not processed.
unfoldable pub try_branch : Reconciler → Str → Str → GitComponent → Str → Action (Unit {0})
try_branch r timestamp kite_secret comp branch = do
  active ← attempt (has_active_pipeline_run r comp.host comp.repository branch)
  unless_active (schedule_run r timestamp kite_secret comp branch) active

-- The inner loop; it returns `processedComponents`.
unfoldable pub schedule_branches :
    Reconciler → Str → Str → GitComponent → List Str → List Str → Action (List Str)
schedule_branches r timestamp kite_secret comp [] processed = pure processed
schedule_branches r timestamp kite_secret comp (branch ∷ branches) processed =
    if contains processed (component_key comp branch)
    then schedule_branches r timestamp kite_secret comp branches processed
    else try_branch r timestamp kite_secret comp branch
      >> schedule_branches r timestamp kite_secret comp branches
          (processed ++ component_key comp branch ∷ [])

-- The body of the outer loop: a component whose factory or branches fail is passed over.
unfoldable pub schedule_branches_of :
    Reconciler → Str → Str → GitComponent → List Str → Result (List Str) → Action (List Str)
schedule_branches_of r timestamp kite_secret comp processed (err e) = pure processed
schedule_branches_of r timestamp kite_secret comp processed (ok branches) =
    schedule_branches r timestamp kite_secret comp branches processed

unfoldable pub schedule_component :
    Reconciler → Str → Str → List Str → Result GitComponent → Action (List Str)
schedule_component r timestamp kite_secret processed (err e) = pure processed
schedule_component r timestamp kite_secret processed (ok comp) = do
  branches ← attempt (asking comp.get_branches)
  schedule_branches_of r timestamp kite_secret comp processed branches

-- The outer loop.
unfoldable pub schedule_components :
    Reconciler → Str → Str → List AppComponent → List Str → Action (List Str)
schedule_components r timestamp kite_secret [] processed = pure processed
schedule_components r timestamp kite_secret (c ∷ cs) processed = do
  comp ← attempt (asking (λ h. r.new_git_component h c))
  processed' ← schedule_component r timestamp kite_secret processed comp
  schedule_components r timestamp kite_secret cs processed'

-- The components on which mintmaker is not disabled.
unfoldable pub enabled_components : List AppComponent → List AppComponent
enabled_components [] = []
enabled_components (c ∷ cs) =
    if has_value c.annotations disabled_annotation (codes "true")
    then enabled_components cs
    else c ∷ enabled_components cs

unfoldable pub first_name : Result (List Secret) → Str
first_name (err e) = []
first_name (ok []) = []
first_name (ok (s ∷ secrets)) = s.name

-- The name of the secret with Kite's token, or the empty string.
unfoldable pub kite_secret_name : Reconciler → Action Str
kite_secret_name r =
    if r.kite_enabled
    then attempt
        (asking (λ h. r.client.list_secrets h mintmaker_namespace kite_token_label (codes "true")))
      >>= (λ secrets. pure (first_name secrets))
    else pure []

-- What is done with the gathered components.
unfoldable pub schedule_all : Reconciler → List AppComponent → Action (Unit {0})
schedule_all r [] = pure tt
schedule_all r (c ∷ cs) = do
  kite_secret ← kite_secret_name r
  timestamp ← current_time r.platform
  processed ← schedule_components r timestamp kite_secret (c ∷ cs) []
  pure tt

unfoldable pub gathered_components : Reconciler → List NamespaceSpec → Action (List AppComponent)
gathered_components r [] = asking (λ h. r.client.list_components h none)
gathered_components r (ns ∷ namespaces) = filtered_components r.client (ns ∷ namespaces)

-- After the update of the annotation; an error of the update is only logged.
unfoldable pub after_update : Reconciler → Result DependencyUpdateCheck → Action (Unit {0})
after_update r (err e) = pure tt
after_update r (ok check) = do
  gathered ← gathered_components r check.namespaces
  schedule_all r (enabled_components gathered)

unfoldable pub mark_processed : DependencyUpdateCheck → DependencyUpdateCheck
mark_processed check = record check {
  annotations = insert processed_annotation (codes "true") check.annotations;
}

unfoldable pub process_check : Reconciler → DependencyUpdateCheck → Action (Unit {0})
process_check r check =
    if has_value check.annotations processed_annotation (codes "true") then pure tt else do
      emit (Effect.record_check check.namespace check.name)
      updated ← attempt (
          perform (λ h. r.client.update_check h (mark_processed check))
            (Effect.update (Object.check (mark_processed check))))
      after_update r updated

-- `&DependencyUpdateCheck{}`, which is what a failed `Get` leaves
abbrev pub zero_check : DependencyUpdateCheck
zero_check = record { name = []; namespace = []; annotations = []; namespaces = [] }

-- Only the error NotFound of `Get` ends the call.
unfoldable pub reconcile_found : Reconciler → Result DependencyUpdateCheck → Action (Unit {0})
reconcile_found r (err not_found) = pure tt
reconcile_found r (err (failure message)) = process_check r zero_check
reconcile_found r (ok check) = process_check r check

-- `Reconcile`
unfoldable pub reconcile : Reconciler → Str → Str → Action (Unit {0})
reconcile r namespace name = do
  check ← attempt (asking (λ h. r.client.get_check h namespace name))
  reconcile_found r check
