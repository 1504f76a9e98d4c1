-- ===== src/Controller/Event/Effects.antt =====
-- internal/controller/event_controller.go: what one call of `Reconcile` asks of the cluster.
use mintmaker.Base.{
  Bool, false, Option, none, some, [], ◌∷◌, Str, codes, lookup, is_empty, str_eq, not_found,
  failure, Result, ok, err, ◌≡◌, refl, inl, inr, All, Bool-cases, Option-cases, ◌∙◌, lookup-insert,
  str_eq_refl,
}
use mintmaker.Tekton.Types.{PipelineRun}
use mintmaker.Cluster.Objects.{Secret, AppComponent, Pod, Event, Object}
use mintmaker.Cluster.Client.{
  World, Action, ◌>>=◌, attempt, asking, note, Effect, History, perform, accepted,
}
use mintmaker.Cluster.Preserves.{
  Preserves, IsStable, >>=-Preserves, pure-Preserves, lift-Preserves, attempt-Preserves,
  asking-Preserves,
}
use mintmaker.Component.Interface.{GitComponent}
use mintmaker.Controller.Event.{
  EventReconciler, label_value, mark_event_as_processed, token_key, add_token, store_token,
  with_git_component, with_component, refresh_token, with_secret_found, with_secret_name, with_pod,
  with_volume, handle_event, cancel_found, cancel_named, cancel_run, mark_named,
  reconcile_event_found, reconcile_event,
}

-- Nothing but the token differs: it is there, and every other entry and field is the old secret's.
abbrev pub AddsToken : Str → Secret → Secret → Type 0
AddsToken token old s =
    (lookup (codes "renovate-token") s.values ≡ some token)
    × ((k : Str)
        → str_eq (codes "renovate-token") k ≡ false
        → lookup k s.values ≡ lookup k old.values)
    × (s.name ≡ old.name)
    × (s.namespace ≡ old.namespace)
    × (s.type ≡ old.type)
    × (s.labels ≡ old.labels)
    × (s.annotations ≡ old.annotations)
    × (s.string_values ≡ old.string_values)
    × (s.owners ≡ old.owners)

-- The token is the one of a component that the cluster has.
abbrev pub IsTokenOf : EventReconciler → Str → Type 0
IsTokenOf r token =
    (h : History) × (namespace : Str) × (name : Str) × (resource : AppComponent) × (h' : History)
    × (comp : GitComponent) × (h'' : History) × (r.client.get_component h namespace name
        ≡ ok resource)
    × (r.new_git_component h' resource ≡ ok comp)
    × (comp.get_token h'' ≡ ok token)

-- Reads, changes of events and runs, and the update of a secret that was read and had no token, by
-- the token of a component.
abbrev pub IsPermitted : EventReconciler → Effect → Type 0
IsPermitted r Effect.read = Unit
IsPermitted r (Effect.patch (Object.event e) b) = Unit
IsPermitted r (Effect.patch (Object.pipeline_run p) b) = Unit
IsPermitted r (Effect.update (Object.secret s) b) =
    (h : History) × (namespace : Str) × (name : Str) × (old : Secret) × (token : Str)
    × (r.client.get_secret h namespace name ≡ ok old)
    × (lookup (codes "renovate-token") old.values ≡ none)
    × IsTokenOf r token
    × AddsToken token old s
IsPermitted r e = ⊥

add_token-AddsToken : (token : Str) (s : Secret) → AddsToken token s (add_token token s)
unfolding add_token
add_token-AddsToken token s = (
  lookup-insert token_key token_key token s.values ∙ (rw (str_eq_refl token_key) refl),
  (λ k other. lookup-insert token_key k token s.values ∙ (rw other refl)),
  refl,
  refl,
  refl,
  refl,
  refl,
  refl,
  refl,
)

-- The result of an attempted read is what the cluster answers to some history.
asked-Preserves :
    {P : World → Type 0} {A B : Type 0} (call : History → Result A) (next : Result A → Action B)
    → IsStable P
    → ((h : History) (a : Result A) → call h ≡ a → Preserves P (next a))
    → Preserves P (attempt (asking call) >>= next)
unfolding ◌>>=◌ attempt perform
asked-Preserves call next stable k = record {
  keep = λ w h. (k w.history (call w.history) refl).keep (note Effect.read w) (stable.reads w h);
}

abbrev OnlyPermitted : EventReconciler → World → Type 0
OnlyPermitted r w = All (IsPermitted r) w.history

OnlyPermitted-IsStable : (r : EventReconciler) → IsStable (OnlyPermitted r)
OnlyPermitted-IsStable r = record { reads = λ w h. (tt, h); draws = λ w n h. h }

perform-OnlyPermitted :
    (r : EventReconciler) {A : Type 0} (call : History → Result A) (entry : Bool → Effect)
    → ((b : Bool) → IsPermitted r (entry b))
    → Preserves (OnlyPermitted r) (perform call entry)
unfolding perform
perform-OnlyPermitted r call entry h = record { keep = λ w k. (h (accepted (call w.history)), k) }

module _ (r : EventReconciler) where
  mark_named-OnlyPermitted : (evt : Event) → Preserves (OnlyPermitted r) (mark_named r evt)
  unfolding mark_named mark_event_as_processed
  mark_named-OnlyPermitted evt = elim (Bool-cases (is_empty evt.name)) [
    | inl on ↦ rw on (pure-Preserves _)
    | inr off ↦ rw off (
        >>=-Preserves (attempt-Preserves (perform-OnlyPermitted r _ _ λ b. tt))
          λ a. pure-Preserves _)
  ]

  cancel_found-OnlyPermitted :
      (message : Str) (run : Result PipelineRun)
      → Preserves (OnlyPermitted r) (cancel_found r message run)
  unfolding cancel_found
  cancel_found-OnlyPermitted message (err e) = pure-Preserves _
  cancel_found-OnlyPermitted message (ok run) =
      >>=-Preserves (attempt-Preserves (perform-OnlyPermitted r _ _ λ b. tt)) λ a. pure-Preserves _

  cancel_named-OnlyPermitted :
      (pod : Pod) (message : Str) (name : Option Str)
      → Preserves (OnlyPermitted r) (cancel_named r pod message name)
  unfolding cancel_named
  cancel_named-OnlyPermitted pod message none = pure-Preserves _
  cancel_named-OnlyPermitted pod message (some name) =
      >>=-Preserves (attempt-Preserves (asking-Preserves _ (OnlyPermitted-IsStable r)))
        λ run. cancel_found-OnlyPermitted message run

  cancel_run-OnlyPermitted :
      (pod : Option Pod) (message : Str) → Preserves (OnlyPermitted r) (cancel_run r pod message)
  unfolding cancel_run
  cancel_run-OnlyPermitted none message = pure-Preserves _
  cancel_run-OnlyPermitted (some pod) message = elim (Bool-cases (is_empty pod.name)) [
    | inl on ↦ rw on (pure-Preserves _)
    | inr off ↦ elim (Bool-cases (is_empty message)) [
      | inl on ↦ rw (off, on) (pure-Preserves _)
      | inr off' ↦ rw (off, off') (cancel_named-OnlyPermitted pod message _)
    ]
  ]

  module _ (pod : Pod) (s : Secret) (missing : lookup token_key s.values ≡ none) (h : History)
      (namespace name : Str) (read : r.client.get_secret h namespace name ≡ ok s) where
    store_token-OnlyPermitted :
        (token : Result Str)
        → ((t : Str) → token ≡ ok t → IsTokenOf r t)
        → Preserves (OnlyPermitted r) (store_token r pod s token)
    unfolding store_token
    store_token-OnlyPermitted (err e) got = pure-Preserves _
    store_token-OnlyPermitted (ok token) got =
        >>=-Preserves
          (attempt-Preserves (
            perform-OnlyPermitted r _ _ λ b. (
              h,
              namespace,
              name,
              s,
              token,
              read,
              missing,
              got token refl,
              add_token-AddsToken token s,
            )))
          λ a. pure-Preserves _

    with_git_component-OnlyPermitted :
        (comp : Result GitComponent)
        → ((c : GitComponent) (h' : History) (t : Str)
            → comp ≡ ok c
            → c.get_token h' ≡ ok t
            → IsTokenOf r t)
        → Preserves (OnlyPermitted r) (with_git_component r pod s comp)
    unfolding with_git_component
    with_git_component-OnlyPermitted (err e) got = pure-Preserves _
    with_git_component-OnlyPermitted (ok comp) got =
        asked-Preserves comp.get_token (store_token r pod s) (OnlyPermitted-IsStable r)
          λ h' token e. store_token-OnlyPermitted token (λ t k. got comp h' t refl (e ∙ k))

    with_component-OnlyPermitted :
        (h' : History) (ns component : Str) (resource : Result AppComponent)
        → r.client.get_component h' ns component ≡ resource
        → Preserves (OnlyPermitted r) (with_component r pod s resource)
    unfolding with_component
    with_component-OnlyPermitted h' ns component (err not_found) got = pure-Preserves _
    with_component-OnlyPermitted h' ns component (err (failure message)) got = pure-Preserves _
    with_component-OnlyPermitted h' ns component (ok resource) got =
        asked-Preserves (λ g. r.new_git_component g resource) (with_git_component r pod s)
          (OnlyPermitted-IsStable r)
          λ g comp e.
            with_git_component-OnlyPermitted comp
              λ c g' t k m. (h', ns, component, resource, g, c, g', got, e ∙ k, m)

    refresh_token-OnlyPermitted :
        (o : Option Str)
        → lookup token_key s.values ≡ o
        → Preserves (OnlyPermitted r) (refresh_token r pod s o)
    unfolding refresh_token
    refresh_token-OnlyPermitted (some token) e = pure-Preserves _
    refresh_token-OnlyPermitted none e =
        asked-Preserves
          (λ g.
            r.client.get_component g
              (label_value pod (codes "mintmaker.appstudio.redhat.com/namespace"))
              (label_value pod (codes "mintmaker.appstudio.redhat.com/component")))
          (with_component r pod s) (OnlyPermitted-IsStable r)
          λ g resource got. with_component-OnlyPermitted g _ _ resource got

  with_secret_found-OnlyPermitted :
      (pod : Pod) (namespace name : Str) (h : History) (s : Result Secret)
      → r.client.get_secret h namespace name ≡ s
      → Preserves (OnlyPermitted r) (with_secret_found r pod s)
  unfolding with_secret_found
  with_secret_found-OnlyPermitted pod namespace name h (err not_found) read = pure-Preserves _
  with_secret_found-OnlyPermitted pod namespace name h (err (failure message)) read =
      pure-Preserves _
  with_secret_found-OnlyPermitted pod namespace name h (ok s) read =
      elim (Option-cases (lookup token_key s.values)) [
        | inl e ↦
            refresh_token-OnlyPermitted pod s e h namespace name read (lookup token_key s.values)
              refl
        | inr (token, e) ↦ rw e (unfold refresh_token in pure-Preserves _)
      ]

  with_secret_name-OnlyPermitted :
      (evt : Event) (pod : Pod) (name : Str)
      → Preserves (OnlyPermitted r) (with_secret_name r evt pod name)
  unfolding with_secret_name
  with_secret_name-OnlyPermitted evt pod [] = pure-Preserves _
  with_secret_name-OnlyPermitted evt pod (c ∷ name) =
      asked-Preserves (λ h. r.client.get_secret h evt.involved_namespace (c ∷ name))
        (with_secret_found r pod) (OnlyPermitted-IsStable r)
        (with_secret_found-OnlyPermitted pod evt.involved_namespace (c ∷ name))

  with_pod-OnlyPermitted :
      (evt : Event) (volume : Str) (pod : Result Pod)
      → Preserves (OnlyPermitted r) (with_pod r evt volume pod)
  unfolding with_pod
  with_pod-OnlyPermitted evt volume (err not_found) = pure-Preserves _
  with_pod-OnlyPermitted evt volume (err (failure message)) = pure-Preserves _
  with_pod-OnlyPermitted evt volume (ok pod) = with_secret_name-OnlyPermitted evt pod _

  with_volume-OnlyPermitted :
      (evt : Event) (volume : Option Str) → Preserves (OnlyPermitted r) (with_volume r evt volume)
  unfolding with_volume
  with_volume-OnlyPermitted evt none = pure-Preserves _
  with_volume-OnlyPermitted evt (some volume) =
      >>=-Preserves (attempt-Preserves (asking-Preserves _ (OnlyPermitted-IsStable r)))
        λ pod. with_pod-OnlyPermitted evt volume pod

  handle_event-OnlyPermitted : (evt : Event) → Preserves (OnlyPermitted r) (handle_event r evt)
  unfolding handle_event
  handle_event-OnlyPermitted evt = elim (Bool-cases (str_eq evt.involved_kind (codes "Pod"))) [
    | inl on ↦ rw on (with_volume-OnlyPermitted evt _)
    | inr off ↦ rw off (pure-Preserves _)
  ]

  reconcile_event_found-OnlyPermitted :
      (evt : Result Event) → Preserves (OnlyPermitted r) (reconcile_event_found r evt)
  unfolding reconcile_event_found
  reconcile_event_found-OnlyPermitted (err not_found) = pure-Preserves _
  reconcile_event_found-OnlyPermitted (err (failure message)) = lift-Preserves _
  reconcile_event_found-OnlyPermitted (ok evt) =
      >>=-Preserves (handle_event-OnlyPermitted evt) λ outcome.
        >>=-Preserves (mark_named-OnlyPermitted evt) λ marked.
          >>=-Preserves (cancel_run-OnlyPermitted outcome.pod outcome.message)
            λ cancelled. lift-Preserves _

  reconcile_event-OnlyPermitted :
      (namespace name : Str) → Preserves (OnlyPermitted r) (reconcile_event r namespace name)
  unfolding reconcile_event
  reconcile_event-OnlyPermitted namespace name =
      >>=-Preserves (attempt-Preserves (asking-Preserves _ (OnlyPermitted-IsStable r)))
        λ evt. reconcile_event_found-OnlyPermitted evt

  -- However the cluster answers, one call of `Reconcile` for an event only reads, patches events
  -- and pipeline runs, and updates secrets; it creates and deletes nothing. The secret of such an
  -- update is one that the cluster returned without a token, with the token of a component that
  -- the cluster returned, and with its other entries and all its other fields as they were.
  pub reconcile_event-IsPermitted :
      (namespace name : Str) (w : World)
      → All (IsPermitted r) w.history
      → All (IsPermitted r) (reconcile_event r namespace name w).1.history
  reconcile_event-IsPermitted namespace name w h =
      (reconcile_event-OnlyPermitted namespace name).keep w h
