-- ===== src/Controller/Check/Marked.antt =====
-- internal/controller/dependencyupdatecheck_controller.go: `Reconcile` changes nothing in the cluster
-- before it has marked its check.
use mintmaker.Base.{
  false, some, [], ◌∷◌, Str, Result, ok, err, not_found, failure, has_value, codes, ◌≡◌, ◌⊎◌,
  lookup,
}
use mintmaker.Cluster.Objects.{DependencyUpdateCheck, Object, processed_annotation}
use mintmaker.Cluster.Client.{World, Effect, History}
use mintmaker.Controller.Create.{Reconciler}
use mintmaker.Controller.Check.{zero_check}

-- The calls that may change the cluster, the latest first: all but reads, samples of metrics and
-- updates of checks.
abbrev pub changes : History → History
changes [] = []
changes (Effect.read ∷ h) = changes h
changes (Effect.count_run ran ∷ h) = changes h
changes (Effect.record_check namespace name ∷ h) = changes h
changes (Effect.update (Object.check c) a ∷ h) = changes h
changes (e ∷ h) = e ∷ changes h

-- What `Get` leaves in the check: the check that it found, or, after another error than NotFound,
-- the empty one.
abbrev pub IsRead : Result DependencyUpdateCheck → DependencyUpdateCheck → Type 0
IsRead (ok check) c = c ≡ check
IsRead (err not_found) c = ⊥
IsRead (err (failure message)) c = c ≡ zero_check

abbrev pub IsAccepted : {A : Type 0} → Result A → Type 0
IsAccepted (ok a) = Unit
IsAccepted (err e) = ⊥

-- The check that was read is not processed, and the API, asked at once after the check was read and
-- counted, accepts a copy of it with the annotation `processed_annotation` set.
pub record IsMarked (r : Reconciler) (namespace name : Str) (w : World) : Type 0 where
  pub check : DependencyUpdateCheck
  pub marked : DependencyUpdateCheck
  pub is_read : IsRead (r.client.get_check w.history namespace name) check
  pub is_new : has_value check.annotations processed_annotation (codes "true") ≡ false
  pub has_mark : lookup processed_annotation marked.annotations ≡ some (codes "true")
  pub same_name : (marked.name ≡ check.name) × (marked.namespace ≡ check.namespace)
  pub same_spec : marked.namespaces ≡ check.namespaces
  pub stored : IsAccepted (
      r.client.update_check
        (Effect.record_check check.namespace check.name ∷ Effect.read ∷ w.history)
        marked)

module _ (r : Reconciler) (namespace name : Str) (w : World) where
  -- Nothing has been changed since `w`, or the check is marked.
  abbrev pub MarksFirst : World → Type 0
  MarksFirst w' = (changes w'.history ≡ changes w.history) ⊎ IsMarked r namespace name w
