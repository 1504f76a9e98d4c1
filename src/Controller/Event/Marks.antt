-- ===== src/Controller/Event/Marks.antt =====
-- internal/controller/event_controller.go: the deferred function marks every event that was found.
use mintmaker.Base.{
  Bool, false, Option, none, some, [], ◌∷◌, Str, codes, lookup, is_empty, str_eq, not_found,
  failure, Result, ok, err, ◌≡◌, refl, inl, inr, In, Bool-cases, subst, sym, Dict, insert,
  lookup-insert, str_eq_refl,
}
use mintmaker.Tekton.Types.{PipelineRun}
use mintmaker.Cluster.Objects.{Secret, AppComponent, Pod, Event, Object, processed_annotation}
use mintmaker.Cluster.Client.{
  World, Action, Effect, History, ◌>>=◌, pure, lift, attempt, perform, note, accepted,
}
use mintmaker.Cluster.Preserves.{
  Preserves, IsStable, >>=-Preserves, pure-Preserves, lift-Preserves, attempt-Preserves,
  asking-Preserves, Leads, then-Leads, Totals, Ends, >>=-Totals, pure-Totals,
}
use mintmaker.Component.Interface.{GitComponent}
use mintmaker.Controller.Event.{
  EventReconciler, Outcome, accepts_created, mark_event, mark_event_as_processed, store_token,
  with_git_component, with_component, refresh_token, with_secret_found, with_secret_name, with_pod,
  with_volume, handle_event, cancel_found, cancel_named, cancel_run, mark_named,
  reconcile_event_found, reconcile_event,
}

insert_found : (k v : Str) (m : Dict Str) → lookup k (insert k v m) ≡ some v
insert_found k v m = rw (lookup-insert k k v m, str_eq_refl k) refl

-- An event that was marked as processed is not taken up again, even if it is delivered as a new one.
pub accepts_created-mark_event : (evt : Event) → accepts_created (mark_event evt) ≡ false
unfolding accepts_created mark_event
accepts_created-mark_event evt = elim (Bool-cases (str_eq evt.reason (codes "FailedMount"))) [
  | inr off ↦ rw off refl
  | inl on ↦
      rw (on, insert_found processed_annotation (codes "true") evt.annotations, accepts_created)
        refl
]

abbrev Anywhere : World → Type 0
Anywhere w = Unit

-- The body has an outcome on every path.
abbrev Returns : {A : Type 0} → Action A → Type 0
Returns {A = A} m = Totals Anywhere (λ a w. Unit) m

attempt-Returns :
    {A : Type 0} (m : Action A) → Totals {A = Result A} Anywhere (λ a w. Unit) (attempt m)
unfolding attempt
attempt-Returns m = record { ends = λ w h. tt }

pure-Returns : {A : Type 0} (a : A) → Returns (pure a)
pure-Returns a = pure-Totals a (λ w h. tt)

module _ (r : EventReconciler) where
  store_token-Returns :
      (pod : Pod) (s : Secret) (token : Result Str) → Returns (store_token r pod s token)
  unfolding store_token
  store_token-Returns pod s (err e) = pure-Returns _
  store_token-Returns pod s (ok token) = >>=-Totals (attempt-Returns _) λ a. pure-Returns _

  with_git_component-Returns :
      (pod : Pod) (s : Secret) (comp : Result GitComponent)
      → Returns (with_git_component r pod s comp)
  unfolding with_git_component
  with_git_component-Returns pod s (err e) = pure-Returns _
  with_git_component-Returns pod s (ok comp) =
      >>=-Totals (attempt-Returns _) λ a. store_token-Returns pod s a

  with_component-Returns :
      (pod : Pod) (s : Secret) (comp : Result AppComponent) → Returns (with_component r pod s comp)
  unfolding with_component
  with_component-Returns pod s (err not_found) = pure-Returns _
  with_component-Returns pod s (err (failure message)) = pure-Returns _
  with_component-Returns pod s (ok comp) =
      >>=-Totals (attempt-Returns _) λ a. with_git_component-Returns pod s a

  refresh_token-Returns :
      (pod : Pod) (s : Secret) (o : Option Str) → Returns (refresh_token r pod s o)
  unfolding refresh_token
  refresh_token-Returns pod s (some token) = pure-Returns _
  refresh_token-Returns pod s none =
      >>=-Totals (attempt-Returns _) λ a. with_component-Returns pod s a

  with_secret_found-Returns : (pod : Pod) (s : Result Secret) → Returns (with_secret_found r pod s)
  unfolding with_secret_found
  with_secret_found-Returns pod (err not_found) = pure-Returns _
  with_secret_found-Returns pod (err (failure message)) = pure-Returns _
  with_secret_found-Returns pod (ok s) = refresh_token-Returns pod s _

  with_secret_name-Returns :
      (evt : Event) (pod : Pod) (name : Str) → Returns (with_secret_name r evt pod name)
  unfolding with_secret_name
  with_secret_name-Returns evt pod [] = pure-Returns _
  with_secret_name-Returns evt pod (c ∷ name) =
      >>=-Totals (attempt-Returns _) λ a. with_secret_found-Returns pod a

  with_pod-Returns :
      (evt : Event) (volume : Str) (pod : Result Pod) → Returns (with_pod r evt volume pod)
  unfolding with_pod
  with_pod-Returns evt volume (err not_found) = pure-Returns _
  with_pod-Returns evt volume (err (failure message)) = pure-Returns _
  with_pod-Returns evt volume (ok pod) = with_secret_name-Returns evt pod _

  with_volume-Returns : (evt : Event) (volume : Option Str) → Returns (with_volume r evt volume)
  unfolding with_volume
  with_volume-Returns evt none = pure-Returns _
  with_volume-Returns evt (some volume) =
      >>=-Totals (attempt-Returns _) λ a. with_pod-Returns evt volume a

  handle_event-Returns : (evt : Event) → Returns (handle_event r evt)
  unfolding handle_event
  handle_event-Returns evt = elim (Bool-cases (str_eq evt.involved_kind (codes "Pod"))) [
    | inl on ↦ rw on (with_volume-Returns evt _)
    | inr off ↦ rw off (pure-Returns _)
  ]

  module _ (evt : Event) where
    -- The patch of the marked event was asked for.
    abbrev pub IsMarked : World → Type 0
    IsMarked w = (b : Bool) × In (Effect.patch (Object.event (mark_event evt)) b) w.history

    IsMarked-IsStable : IsStable IsMarked
    IsMarked-IsStable = record { reads = λ w h. (h.0, inr h.1); draws = λ w n h. h }

    perform-IsMarked :
        {A : Type 0} (call : History → Result A) (entry : Bool → Effect)
        → Preserves IsMarked (perform call entry)
    unfolding perform
    perform-IsMarked call entry = record { keep = λ w h. (h.0, inr h.1) }

    mark_named-Leads : is_empty evt.name ≡ false → Leads Anywhere IsMarked (mark_named r evt)
    unfolding mark_named
    mark_named-Leads named = rw named (then-Leads marking λ a. pure-Preserves _)
      where
        marking : Leads Anywhere IsMarked (attempt (mark_event_as_processed r evt))
        marking =
            unfold attempt mark_event_as_processed perform in
            record {
              lead = λ w h. (accepted (r.client.patch_event w.history (mark_event evt)), inl refl);
            }

    cancel_found-IsMarked :
        (message : Str) (run : Result PipelineRun) → Preserves IsMarked (cancel_found r message run)
    unfolding cancel_found
    cancel_found-IsMarked message (err e) = pure-Preserves _
    cancel_found-IsMarked message (ok run) =
        >>=-Preserves (attempt-Preserves (perform-IsMarked _ _)) λ a. pure-Preserves _

    cancel_named-IsMarked :
        (pod : Pod) (message : Str) (name : Option Str)
        → Preserves IsMarked (cancel_named r pod message name)
    unfolding cancel_named
    cancel_named-IsMarked pod message none = pure-Preserves _
    cancel_named-IsMarked pod message (some name) =
        >>=-Preserves (attempt-Preserves (asking-Preserves _ IsMarked-IsStable))
          λ run. cancel_found-IsMarked message run

    cancel_run-IsMarked :
        (pod : Option Pod) (message : Str) → Preserves IsMarked (cancel_run r pod message)
    unfolding cancel_run
    cancel_run-IsMarked none message = pure-Preserves _
    cancel_run-IsMarked (some pod) message = elim (Bool-cases (is_empty pod.name)) [
      | inl on ↦ rw on (pure-Preserves _)
      | inr off ↦ elim (Bool-cases (is_empty message)) [
        | inl on ↦ rw (off, on) (pure-Preserves _)
        | inr off' ↦ rw (off, off') (cancel_named-IsMarked pod message _)
      ]
    ]

    finish-Leads :
        is_empty evt.name ≡ false
        → (outcome : Outcome)
        → Leads Anywhere IsMarked (
            mark_named r evt >>= λ _.
            cancel_run r outcome.pod outcome.message >>= λ _. lift outcome.result)
    finish-Leads named outcome =
        then-Leads (mark_named-Leads named)
          λ a. >>=-Preserves (cancel_run-IsMarked outcome.pod outcome.message) λ b. lift-Preserves _

    lead_from :
        {A B : Type 0} (f : A → Action B) (result : Result A) (w : World)
        → ((a : A) → Leads Anywhere IsMarked (f a))
        → Ends (λ a v. Unit) (result, w)
        → IsMarked (elim result as (λ _. Result B × World) [ ok a ↦ f a w | err e ↦ (err e, w) ]).1
    lead_from f (ok a) w h k = (h a).lead w tt
    lead_from f (err e) w h k = absurd k

    reconcile_event_found-Leads :
        is_empty evt.name ≡ false → Leads Anywhere IsMarked (reconcile_event_found r (ok evt))
    unfolding reconcile_event_found ◌>>=◌
    reconcile_event_found-Leads named = record {
      lead = λ w h.
          lead_from _ (handle_event r evt w).0 (handle_event r evt w).1 (finish-Leads named)
            ((handle_event-Returns evt).ends w tt);
    }

    -- An event that the cluster returns is marked as processed, that is, the patch with its
    -- annotation is asked for, whatever the other answers of the cluster are and whatever error the
    -- call ends with.
    pub reconcile_event-IsMarked :
        (namespace name : Str) (w : World)
        → r.client.get_event w.history namespace name ≡ ok evt
        → is_empty evt.name ≡ false
        → IsMarked (reconcile_event r namespace name w).1
    unfolding reconcile_event ◌>>=◌ attempt perform
    reconcile_event-IsMarked namespace name w found named =
        subst (λ e. IsMarked (reconcile_event_found r e (note Effect.read w)).1) (sym found)
          ((reconcile_event_found-Leads named).lead (note Effect.read w) tt)
