-- ===== src/Controller/Check/Schedule.antt =====
-- internal/controller/dependencyupdatecheck_controller.go: in one `Reconcile` no key of host,
-- repository and branch is scheduled twice.
use mathlib.Core.List.{map}
use mintmaker.Base.{
  Bool, true, false, Option, some, List, [], ◌∷◌, ◌++◌, Str, Result, ok, err, Bool-cases, inl, inr,
  contains, str_eq_refl, ◌≡◌, refl, ◌∙◌, ap, arith, str_eq_iff, All, take,
}
use mintmaker.Utils.Names.{hex, repo_branch_hash}
use mintmaker.Cluster.Objects.{AppComponent}
use mintmaker.Cluster.Client.{World, Effect, History, emit, asking}
use mintmaker.Cluster.Preserves.{
  Preserves, Totals, Ends, >>=-Totals, pure-Totals, attempt-Totals, asking-Preserves, >>=-Preserves,
  pure-Preserves, Preserves-Leads, Ends-map,
}
use mintmaker.Component.Interface.{GitComponent}
use mintmaker.Controller.Create.{Reconciler, draw_string}
use mintmaker.Controller.Run.Labels.{branch_hash}
use mintmaker.Controller.Run.Hashes.{
  created_hashes, Hashed, Hashed-IsStable, MayAdd, create_pipeline_run-MayAdd,
}
use mintmaker.Controller.Check.{
  has_active_pipeline_run, schedule_run, unless_active, component_key, try_branch,
  schedule_branches, schedule_branches_of, schedule_component, schedule_components,
}

-- No key stands in the list twice.
abbrev pub Distinct : List Str → Type 0
Distinct [] = Unit
Distinct (k ∷ ks) = (contains ks k ≡ false) × Distinct ks

-- `RepoBranchHash` of a key.
abbrev pub key_hash : (Str → Str) → Str → Option Str
key_hash sha256 key = some (take 12 (hex (sha256 key)))

-- No key is processed twice, and the runs created since `before` carry the hashes of pairwise
-- distinct keys, all of them processed.
pub record Scheduled (sha256 : Str → Str) (before : List (Option Str)) (processed : List Str)
    (w : World) : Type 0 where
  pub processed_distinct : Distinct processed
  pub keys : List Str
  pub distinct : Distinct keys
  pub covered : All (λ k. contains processed k ≡ true) keys
  pub hashes : created_hashes w.history ≡ map (key_hash sha256) keys ++ before

contains-append : (xs ys : List Str) (k : Str) → contains xs k ≡ true → contains (xs ++ ys) k ≡ true
unfolding contains
contains-append [] ys k h = cc
contains-append (x ∷ xs) ys k h = ground (arith, contains-append xs ys k)

contains_last : (xs : List Str) (k : Str) → contains (xs ++ k ∷ []) k ≡ true
unfolding contains
contains_last [] k = rw (str_eq_refl k)
contains_last (x ∷ xs) k = ground (arith, contains_last xs k)

All-weaken :
    (processed ys : List Str) (ks : List Str)
    → All (λ k. contains processed k ≡ true) ks
    → All (λ k. contains (processed ++ ys) k ≡ true) ks
All-weaken processed ys [] h = tt
All-weaken processed ys (k ∷ ks) h =
    (contains-append processed ys k h.0, All-weaken processed ys ks h.1)

-- A key that is not processed is none of the keys.
fresh_key :
    (processed ks : List Str) (key : Str)
    → contains processed key ≡ false
    → All (λ k. contains processed k ≡ true) ks
    → contains ks key ≡ false
unfolding contains
fresh_key processed [] key new h = refl
fresh_key processed (k ∷ ks) key new h =
    ground (arith, fresh_key processed ks key new h.1, h.0, str_eq_iff k key)

contains-append_false :
    (xs : List Str) (x k : Str)
    → contains xs x ≡ false
    → contains (x ∷ xs) k ≡ false
    → contains (xs ++ k ∷ []) x ≡ false
unfolding contains
contains-append_false [] x k new other = ground (arith, str_eq_iff x k, str_eq_iff k x)
contains-append_false (y ∷ xs) x k new other =
    ground (arith, contains-append_false xs x k, str_eq_iff x k, str_eq_iff k x)

contains-cons_false :
    (x : Str) (xs : List Str) (k : Str) → contains (x ∷ xs) k ≡ false → contains xs k ≡ false
unfolding contains
contains-cons_false x xs k h = ground arith

-- Distinct keys remain distinct with a new one at their end.
Distinct-append :
    (xs : List Str) (k : Str) → contains xs k ≡ false → Distinct xs → Distinct (xs ++ k ∷ [])
unfolding contains
Distinct-append [] k new h = (refl, tt)
Distinct-append (x ∷ xs) k new (h, hs) =
    (contains-append_false xs x k h new, Distinct-append xs k (contains-cons_false x xs k new) hs)

module _ (r : Reconciler) (timestamp kite_secret : Str) where
  schedule_run-Totals :
      (comp : GitComponent) (branch : Str) (hs : List (Option Str))
      → Totals
          (Hashed hs)
          (λ _. MayAdd (some (branch_hash r comp branch)) hs)
          (schedule_run r timestamp kite_secret comp branch)
  unfolding schedule_run
  schedule_run-Totals comp branch hs = >>=-Totals drawn λ suffix.
      >>=-Totals (attempt-Totals (create_pipeline_run-MayAdd r comp branch hs _ kite_secret))
        λ result. counted _
    where
      drawn : Totals (Hashed hs) (λ _. Hashed hs) (draw_string r.platform 8)
      drawn = unfold draw_string in record { ends = λ w h. (Hashed-IsStable hs).draws w _ h }

      counted :
          (ran : Bool)
          → Totals
              (MayAdd (some (branch_hash r comp branch)) hs)
              (λ _. MayAdd (some (branch_hash r comp branch)) hs)
              (emit (Effect.count_run ran))
      counted ran = unfold emit in record { ends = λ w h. record { added = h.added } }

  unless_active-Totals :
      (comp : GitComponent) (branch : Str) (hs : List (Option Str)) (active : Result Bool)
      → Totals
          (Hashed hs)
          (λ _. MayAdd (some (branch_hash r comp branch)) hs)
          (unless_active (schedule_run r timestamp kite_secret comp branch) active)
  unfolding unless_active
  unless_active-Totals comp branch hs (err e) =
      pure-Totals _ (λ w h. record { added = inl h.hashed })
  unless_active-Totals comp branch hs (ok true) =
      pure-Totals _ (λ w h. record { added = inl h.hashed })
  unless_active-Totals comp branch hs (ok false) = schedule_run-Totals comp branch hs

  try_branch-Totals :
      (comp : GitComponent) (branch : Str) (hs : List (Option Str))
      → Totals
          (Hashed hs)
          (λ _. MayAdd (some (branch_hash r comp branch)) hs)
          (try_branch r timestamp kite_secret comp branch)
  unfolding try_branch has_active_pipeline_run
  try_branch-Totals comp branch hs =
      >>=-Totals
        (attempt-Totals (
          Preserves-Leads
            (>>=-Preserves (asking-Preserves _ (Hashed-IsStable hs)) (λ runs. pure-Preserves _))))
        (unless_active-Totals comp branch hs)

  module _ (before : List (Option Str)) where
    -- A key that is not processed may be scheduled, and is processed then.
    extend :
        (comp : GitComponent) (branch : Str) (processed : List Str) (w w' : World)
        → contains processed (component_key comp branch) ≡ false
        → Scheduled r.sha256 before processed w
        → MayAdd (some (branch_hash r comp branch)) (created_hashes w.history) w'
        → Scheduled r.sha256 before (processed ++ component_key comp branch ∷ []) w'
    unfolding repo_branch_hash
    extend comp branch processed w w' new h m =
        let key = component_key comp branch in
        let old = All-weaken processed (key ∷ []) h.keys h.covered in
        let more_distinct = Distinct-append processed key new h.processed_distinct in
        elim m.added [
          | inl same ↦ record {
            processed_distinct = more_distinct;
            keys = h.keys;
            distinct = h.distinct;
            covered = old;
            hashes = same ∙ h.hashes;
          }
          | inr more ↦ record {
            processed_distinct = more_distinct;
            keys = key ∷ h.keys;
            distinct = (fresh_key processed h.keys key new h.covered, h.distinct);
            covered = (contains_last processed key, old);
            hashes = more ∙ ap (λ l. some (branch_hash r comp branch) ∷ l) h.hashes;
          }
        ]

    try_branch-Scheduled :
        (comp : GitComponent) (branch : Str) (processed : List Str)
        → contains processed (component_key comp branch) ≡ false
        → Totals
            (Scheduled r.sha256 before processed)
            (λ _. Scheduled r.sha256 before (processed ++ component_key comp branch ∷ []))
            (try_branch r timestamp kite_secret comp branch)
    try_branch-Scheduled comp branch processed new = record {
      ends = λ w h.
          Ends-map (λ _. MayAdd (some (branch_hash r comp branch)) (created_hashes w.history)) _ _ _
            (λ _ m. extend comp branch processed w _ new h m)
            ((try_branch-Totals comp branch (created_hashes w.history)).ends w
              (record { hashed = refl }));
    }

    schedule_branches-Scheduled :
        (comp : GitComponent) (branches processed : List Str)
        → Totals
            (Scheduled r.sha256 before processed)
            (Scheduled r.sha256 before)
            (schedule_branches r timestamp kite_secret comp branches processed)
    unfolding schedule_branches
    schedule_branches-Scheduled comp [] processed = pure-Totals _ (λ w h. h)
    schedule_branches-Scheduled comp (branch ∷ branches) processed =
        elim (Bool-cases (contains processed (component_key comp branch))) [
          | inl old ↦ rw old (schedule_branches-Scheduled comp branches processed)
          | inr new ↦ rw new (
              >>=-Totals (try_branch-Scheduled comp branch processed new) (λ _.
                schedule_branches-Scheduled comp branches
                  (processed ++ component_key comp branch ∷ [])))
        ]

    asking-Scheduled :
        {A : Type 0} (processed : List Str) (call : History → Result A)
        → Preserves (Scheduled r.sha256 before processed) (asking call)
    asking-Scheduled processed call = asking-Preserves call (record {
      reads = λ w h. record {
        processed_distinct = h.processed_distinct;
        keys = h.keys;
        distinct = h.distinct;
        covered = h.covered;
        hashes = h.hashes;
      };
      draws = λ w n h. record {
        processed_distinct = h.processed_distinct;
        keys = h.keys;
        distinct = h.distinct;
        covered = h.covered;
        hashes = h.hashes;
      };
    })

    schedule_branches_of-Scheduled :
        (comp : GitComponent) (processed : List Str) (branches : Result (List Str))
        → Totals
            (Scheduled r.sha256 before processed)
            (Scheduled r.sha256 before)
            (schedule_branches_of r timestamp kite_secret comp processed branches)
    unfolding schedule_branches_of
    schedule_branches_of-Scheduled comp processed (err e) = pure-Totals _ (λ w h. h)
    schedule_branches_of-Scheduled comp processed (ok branches) =
        schedule_branches-Scheduled comp branches processed

    schedule_component-Scheduled :
        (processed : List Str) (comp : Result GitComponent)
        → Totals
            (Scheduled r.sha256 before processed)
            (Scheduled r.sha256 before)
            (schedule_component r timestamp kite_secret processed comp)
    unfolding schedule_component
    schedule_component-Scheduled processed (err e) = pure-Totals _ (λ w h. h)
    schedule_component-Scheduled processed (ok comp) =
        >>=-Totals (attempt-Totals (Preserves-Leads (asking-Scheduled processed comp.get_branches)))
          (schedule_branches_of-Scheduled comp processed)

    schedule_components-Scheduled :
        (components : List AppComponent) (processed : List Str)
        → Totals
            (Scheduled r.sha256 before processed)
            (Scheduled r.sha256 before)
            (schedule_components r timestamp kite_secret components processed)
    unfolding schedule_components
    schedule_components-Scheduled [] processed = pure-Totals _ (λ w h. h)
    schedule_components-Scheduled (c ∷ components) processed =
        >>=-Totals (attempt-Totals (Preserves-Leads (asking-Scheduled processed _))) λ comp.
          >>=-Totals (schedule_component-Scheduled processed comp)
            λ processed'. schedule_components-Scheduled components processed'

  -- The loops over the components and their branches end without an error, whatever fails inside.
  -- The keys that they return as processed are pairwise distinct, and the runs that they create carry
  -- the hashes of pairwise distinct keys, all of them processed.
  pub schedule_components-distinct :
      (components : List AppComponent) (w : World)
      → Ends
          (Scheduled r.sha256 (created_hashes w.history))
          (schedule_components r timestamp kite_secret components [] w)
  schedule_components-distinct components w =
      (schedule_components-Scheduled (created_hashes w.history) components []).ends w
        (record { processed_distinct = tt; keys = []; distinct = tt; covered = tt; hashes = refl })
