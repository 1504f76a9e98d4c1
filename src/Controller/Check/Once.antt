-- ===== src/Controller/Check/Once.antt =====
-- internal/controller/dependencyupdatecheck_controller.go: what one whole `Reconcile` may create.
use mathlib.Core.List.{map}
use mintmaker.Base.{
  Option, List, [], ◌∷◌, ◌++◌, Str, Result, ok, err, not_found, failure, Bool-cases, inl, inr,
  has_value, codes, ◌≡◌, refl,
}
use mintmaker.Cluster.Objects.{
  AppComponent, NamespaceSpec, DependencyUpdateCheck, Object, processed_annotation,
}
use mintmaker.Cluster.Client.{World, Effect, History, ◌>>=◌, pure, emit, perform}
use mintmaker.Cluster.Preserves.{
  Preserves, IsStable, Leads, Ends, asking-Preserves, >>=-Preserves, pure-Preserves,
  attempt-Preserves, after-Leads, any-Yields,
}
use mintmaker.Controller.Create.{Reconciler, current_time}
use mintmaker.Controller.Run.Hashes.{created_hashes, Hashed, Hashed-IsStable}
use mintmaker.Controller.Filter.{filtered_components}
use mintmaker.Controller.Check.{
  schedule_components, kite_secret_name, schedule_all, gathered_components, after_update,
  process_check, zero_check, reconcile_found, reconcile, enabled_components,
}
use mintmaker.Controller.Check.Schedule.{
  Distinct, key_hash, Scheduled, schedule_components-distinct,
}

-- The runs created since `before` carry the hashes of pairwise distinct keys.
pub record OneEach (sha256 : Str → Str) (before : List (Option Str)) (w : World) : Type 0 where
  pub keys : List Str
  pub distinct : Distinct keys
  pub hashes : created_hashes w.history ≡ map (key_hash sha256) keys ++ before

module _ (r : Reconciler) (before : List (Option Str)) where
  none_yet : (w : World) → Hashed before w → OneEach r.sha256 before w
  none_yet w h = record { keys = []; distinct = tt; hashes = h.hashed }

  stable : IsStable (Hashed before)
  stable = Hashed-IsStable before

  of_Ends :
      (m : Result (List Str)) (w : World)
      → Ends (Scheduled r.sha256 before) (m, w)
      → OneEach r.sha256 before
          (elim m as (λ _. Result (Unit {0}) × World) [ ok a ↦ (ok tt, w) | err e ↦ (err e, w) ]).1
  of_Ends (ok processed) w h = record { keys = h.keys; distinct = h.distinct; hashes = h.hashes }
  of_Ends (err e) w h = absurd h

  run_loops :
      (timestamp kite_secret : Str) (components : List AppComponent)
      → Leads (Hashed before) (OneEach r.sha256 before) (
          schedule_components r timestamp kite_secret components []
          >>= (λ processed. pure {A = Unit {0}} tt))
  unfolding ◌>>=◌ pure
  run_loops timestamp kite_secret components = record {
    lead = λ w h.
        of_Ends _ _
          (rw h.hashed at (schedule_components-distinct r timestamp kite_secret components w));
  }

  skip : Leads (Hashed before) (OneEach r.sha256 before) (pure {A = Unit {0}} tt)
  unfolding pure
  skip = record { lead = none_yet }

  kite_secret_name-Preserves : Preserves (Hashed before) (kite_secret_name r)
  unfolding kite_secret_name
  kite_secret_name-Preserves = elim (Bool-cases r.kite_enabled) [
    | inl on ↦ rw on (
        >>=-Preserves (attempt-Preserves (asking-Preserves _ stable)) (λ secrets. pure-Preserves _))
    | inr off ↦ rw off (pure-Preserves _)
  ]

  current_time-Preserves : Preserves (Hashed before) (current_time r.platform)
  unfolding current_time
  current_time-Preserves = record { keep = λ w h. h }

  schedule_all-OneEach :
      (components : List AppComponent)
      → Leads (Hashed before) (OneEach r.sha256 before) (schedule_all r components)
  unfolding schedule_all
  schedule_all-OneEach [] = skip
  schedule_all-OneEach (c ∷ components) =
      after-Leads none_yet kite_secret_name-Preserves (any-Yields _) λ kite_secret _.
        after-Leads none_yet current_time-Preserves (any-Yields _)
          λ timestamp _. run_loops timestamp kite_secret (c ∷ components)

  filtered_components-Preserves :
      (namespaces : List NamespaceSpec)
      → Preserves (Hashed before) (filtered_components r.client namespaces)
  unfolding filtered_components
  filtered_components-Preserves [] = pure-Preserves _
  filtered_components-Preserves (ns ∷ namespaces) =
      >>=-Preserves (asking-Preserves _ stable)
        λ items. >>=-Preserves (filtered_components-Preserves namespaces) λ rest. pure-Preserves _

  gathered_components-Preserves :
      (namespaces : List NamespaceSpec)
      → Preserves (Hashed before) (gathered_components r namespaces)
  unfolding gathered_components
  gathered_components-Preserves [] = asking-Preserves _ stable
  gathered_components-Preserves (ns ∷ namespaces) = filtered_components-Preserves (ns ∷ namespaces)

  after_update-OneEach :
      (updated : Result DependencyUpdateCheck)
      → Leads (Hashed before) (OneEach r.sha256 before) (after_update r updated)
  unfolding after_update
  after_update-OneEach (err e) = skip
  after_update-OneEach (ok check) =
      after-Leads none_yet (gathered_components-Preserves check.namespaces) (any-Yields _)
        λ gathered _. schedule_all-OneEach (enabled_components gathered)

  recorded :
      (namespace name : Str) → Preserves (Hashed before) (emit (Effect.record_check namespace name))
  unfolding emit
  recorded namespace name = record { keep = λ w h. record { hashed = h.hashed } }

  updated-Preserves :
      (call : History → Result DependencyUpdateCheck) (o : Object)
      → Preserves (Hashed before) (perform call (Effect.update o))
  unfolding perform
  updated-Preserves call o = record { keep = λ w h. record { hashed = h.hashed } }

  process_check-OneEach :
      (check : DependencyUpdateCheck)
      → Leads (Hashed before) (OneEach r.sha256 before) (process_check r check)
  unfolding process_check
  process_check-OneEach check =
      elim (Bool-cases (has_value check.annotations processed_annotation (codes "true"))) [
        | inl old ↦ rw (old, process_check) skip
        | inr new ↦
            rw (new, process_check)
              (after-Leads none_yet (recorded check.namespace check.name) (any-Yields _) λ _ _.
                after-Leads none_yet (attempt-Preserves (updated-Preserves _ _)) (any-Yields _)
                  λ updated _. after_update-OneEach updated)
      ]

  reconcile_found-OneEach :
      (found : Result DependencyUpdateCheck)
      → Leads (Hashed before) (OneEach r.sha256 before) (reconcile_found r found)
  unfolding reconcile_found
  reconcile_found-OneEach (err not_found) = skip
  reconcile_found-OneEach (err (failure message)) = process_check-OneEach zero_check
  reconcile_found-OneEach (ok check) = process_check-OneEach check

  reconcile-Leads :
      (namespace name : Str)
      → Leads (Hashed before) (OneEach r.sha256 before) (reconcile r namespace name)
  unfolding reconcile
  reconcile-Leads namespace name =
      after-Leads none_yet (attempt-Preserves (asking-Preserves _ stable)) (any-Yields _)
        λ found _. reconcile_found-OneEach found

-- However one `Reconcile` ends, the pipeline runs that it created carry, as their hash labels, the
-- hashes of pairwise distinct keys of host, repository and branch.
pub reconcile-OneEach :
    (r : Reconciler) (namespace name : Str) (w : World)
    → OneEach r.sha256 (created_hashes w.history) (reconcile r namespace name w).1
reconcile-OneEach r namespace name w =
    (reconcile-Leads r (created_hashes w.history) namespace name).lead w (record { hashed = refl })
