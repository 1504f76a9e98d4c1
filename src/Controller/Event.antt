-- ===== src/Controller/Event.antt =====
-- internal/controller/event_controller.go: `Reconcile` of the reconciler of events, which gives a
-- waiting pod its missing token, or cancels the pipeline run of the pod. The regular expression is
-- written out over bytes. The text of an error and Tekton's names of a cancellation come from
-- outside.
pub mod Effects
pub mod Marks
mod Tests
use mintmaker.Base.{
  Bool, true, false, ◌&&◌, Option, none, some, List, [], ◌∷◌, Str, codes, str_eq, is_empty, cut,
  has_prefix, contains_str, Dict, lookup, insert, Error, Result, ok, err, not_found, failure,
  if◌then◌else◌,
}
use mintmaker.Tekton.Types.{PipelineRun}
use mintmaker.Cluster.Objects.{
  Secret, AppComponent, Pod, PodVolume, Event, Object, processed_annotation,
}
use mintmaker.Cluster.Client.{
  Client, Action, Effect, ◌>>=◌, ◌>>◌, pure, lift, attempt, asking, perform,
}
use mintmaker.Component.Interface.{GitComponent, Factory}

-- `EventReconciler`, with `err.Error()` and the change by which Tekton cancels a run.
pub record EventReconciler : Type 0 where
  pub client : Client
  pub new_git_component : Factory
  pub error_text : Error → Str
  pub cancelled : Str → PipelineRun → PipelineRun

-- The variables that the deferred function reads, and the returned error.
pub record Outcome : Type 0 where
  pub pod : Option Pod
  pub message : Str
  pub result : Result (Unit {0})

abbrev done : Option Pod → Outcome
done pod = record { pod = pod; message = []; result = ok tt }

unfoldable pub mark_event : Event → Event
mark_event evt = record evt {
  annotations = insert processed_annotation (codes "true") evt.annotations;
}

-- `CreateFunc` of `SetupWithManager` on an event; updates, deletions and others are refused there.
unfoldable pub accepts_created : Event → Bool
accepts_created evt =
    if str_eq evt.reason (codes "FailedMount")
    then elim (lookup processed_annotation evt.annotations) [ none ↦ true | some v ↦ false ]
    else false

-- `markEventAsProcessed`
unfoldable pub mark_event_as_processed : EventReconciler → Event → Action Event
mark_event_as_processed r evt =
    perform (λ h. r.client.patch_event h (mark_event evt))
      (Effect.patch (Object.event (mark_event evt)))

-- The text up to the first byte `b`, all of it if there is none.
unfoldable pub before : Str → Option (Str × Str) → Str
before s none = s
before s (some (a, b)) = a

-- What follows `volume "` matches `([^"]+)".*references non-existent secret key: renovate-token`.
unfoldable pub quoted_volume : Str → Option Str
quoted_volume s = elim (cut b'"' s) [
  | none ↦ none
  | some (name, rest) ↦
      if is_empty name
      then none
      else if contains_str (before rest (cut 10 rest))
          (codes "references non-existent secret key: renovate-token")
      then some name
      else none
]

unfoldable pub drop_volume : Str → Str
drop_volume (v ∷ o ∷ l ∷ u ∷ m ∷ e ∷ space ∷ quote ∷ s) = s
drop_volume s = []

-- `msgRegex.FindStringSubmatch(evt.Message)`: the leftmost match.
unfoldable pub find_volume : Str → Option Str
find_volume [] = none
find_volume (c ∷ s) =
    let later = find_volume s in
    if has_prefix (c ∷ s) (codes "volume \"")
    then elim (quoted_volume (drop_volume (c ∷ s))) [ some name ↦ some name | none ↦ later ]
    else later

-- The secret of the first volume that has the name and a secret.
unfoldable pub volume_secret : Str → List PodVolume → Str
volume_secret name [] = []
volume_secret name (v ∷ volumes) =
    let later = volume_secret name volumes in
    elim v.secret_name [ none ↦ later | some secret ↦ if str_eq v.name name then secret else later ]

-- `pod.Labels[key]`
unfoldable pub label_value : Pod → Str → Str
label_value pod key = elim (lookup key pod.labels) [ none ↦ [] | some v ↦ v ]

abbrev pub token_key : Str
token_key = codes "renovate-token"

-- `secret.Data["renovate-token"] = []byte(token)`
unfoldable pub add_token : Str → Secret → Secret
add_token token s = record s { values = insert token_key token s.values }

-- An error that cancels the run and is not returned, and one that is returned too.
unfoldable pub cancel_with : EventReconciler → Pod → Error → Outcome
cancel_with r pod e = record { pod = some pod; message = r.error_text e; result = ok tt }

unfoldable pub cancel_and_return : EventReconciler → Pod → Error → Outcome
cancel_and_return r pod e = record { pod = some pod; message = r.error_text e; result = err e }

unfoldable pub after_secret_update : EventReconciler → Pod → Result Secret → Outcome
after_secret_update r pod (ok s) = done (some pod)
after_secret_update r pod (err e) = cancel_and_return r pod e

unfoldable pub store_token : EventReconciler → Pod → Secret → Result Str → Action Outcome
store_token r pod s (err e) = pure (cancel_with r pod e)
store_token r pod s (ok token) = do
  updated ← attempt (
      perform (λ h. r.client.update_secret h (add_token token s))
        (Effect.update (Object.secret (add_token token s))))
  pure (after_secret_update r pod updated)

unfoldable pub with_git_component :
    EventReconciler → Pod → Secret → Result GitComponent → Action Outcome
with_git_component r pod s (err e) = pure (cancel_with r pod e)
with_git_component r pod s (ok comp) = do
  token ← attempt (asking comp.get_token)
  store_token r pod s token

unfoldable pub with_component :
    EventReconciler → Pod → Secret → Result AppComponent → Action Outcome
with_component r pod s (err not_found) = pure (done (some pod))
with_component r pod s (err (failure message)) = pure (cancel_and_return r pod (failure message))
with_component r pod s (ok comp) = do
  git_component ← attempt (asking (λ h. r.new_git_component h comp))
  with_git_component r pod s git_component

unfoldable pub refresh_token : EventReconciler → Pod → Secret → Option Str → Action Outcome
refresh_token r pod s (some token) = pure (done (some pod))
refresh_token r pod s none = do
  comp ← attempt (
      asking (λ h.
        r.client.get_component h
          (label_value pod (codes "mintmaker.appstudio.redhat.com/namespace"))
          (label_value pod (codes "mintmaker.appstudio.redhat.com/component"))))
  with_component r pod s comp

unfoldable pub with_secret_found : EventReconciler → Pod → Result Secret → Action Outcome
with_secret_found r pod (err not_found) = pure (done (some pod))
with_secret_found r pod (err (failure message)) = pure (cancel_and_return r pod (failure message))
with_secret_found r pod (ok s) = refresh_token r pod s (lookup token_key s.values)

unfoldable pub with_secret_name : EventReconciler → Event → Pod → Str → Action Outcome
with_secret_name r evt pod [] = pure (done (some pod))
with_secret_name r evt pod (c ∷ name) = do
  s ← attempt (asking (λ h. r.client.get_secret h evt.involved_namespace (c ∷ name)))
  with_secret_found r pod s

-- A pod that was not read has no name, so that the deferred function does nothing for it.
unfoldable pub with_pod : EventReconciler → Event → Str → Result Pod → Action Outcome
with_pod r evt volume (err not_found) = pure (done none)
with_pod r evt volume (err (failure message)) =
    pure (record { pod = none; message = []; result = err (failure message) })
with_pod r evt volume (ok pod) = with_secret_name r evt pod (volume_secret volume pod.volumes)

unfoldable pub with_volume : EventReconciler → Event → Option Str → Action Outcome
with_volume r evt none = pure (done none)
with_volume r evt (some volume) = do
  pod ← attempt (asking (λ h. r.client.get_pod h evt.involved_namespace evt.involved_name))
  with_pod r evt volume pod

-- The body from the check of the involved object on.
unfoldable pub handle_event : EventReconciler → Event → Action Outcome
handle_event r evt =
    if str_eq evt.involved_kind (codes "Pod")
    then with_volume r evt (find_volume evt.message)
    else pure (done none)

unfoldable pub cancel_found : EventReconciler → Str → Result PipelineRun → Action (Unit {0})
cancel_found r message (err e) = pure tt
cancel_found r message (ok run) = do
  patched ← attempt (
      perform (λ h. r.client.patch_pipeline_run h (r.cancelled message run))
        (Effect.patch (Object.pipeline_run (r.cancelled message run))))
  pure tt

unfoldable pub cancel_named : EventReconciler → Pod → Str → Option Str → Action (Unit {0})
cancel_named r pod message none = pure tt
cancel_named r pod message (some name) = do
  run ← attempt (asking (λ h. r.client.get_pipeline_run h pod.namespace name))
  cancel_found r message run

-- The second half of the deferred function.
unfoldable pub cancel_run : EventReconciler → Option Pod → Str → Action (Unit {0})
cancel_run r none message = pure tt
cancel_run r (some pod) message =
    if is_empty pod.name
    then pure tt
    else if is_empty message
    then pure tt
    else cancel_named r pod message (lookup (codes "tekton.dev/pipelineRun") pod.labels)

-- The first half; its error is only logged.
unfoldable pub mark_named : EventReconciler → Event → Action (Unit {0})
mark_named r evt =
    if is_empty evt.name then pure tt else attempt (mark_event_as_processed r evt) >> pure tt

unfoldable pub reconcile_event_found : EventReconciler → Result Event → Action (Unit {0})
reconcile_event_found r (err not_found) = pure tt
reconcile_event_found r (err (failure message)) = lift (err (failure message))
reconcile_event_found r (ok evt) = do
  outcome ← handle_event r evt
  mark_named r evt
  cancel_run r outcome.pod outcome.message
  lift outcome.result

-- `Reconcile`
unfoldable pub reconcile_event : EventReconciler → Str → Str → Action (Unit {0})
reconcile_event r namespace name = do
  evt ← attempt (asking (λ h. r.client.get_event h namespace name))
  reconcile_event_found r evt
