-- ===== src/Controller/Run/Hashes.antt =====
-- What `createPipelineRun` adds to the created runs: at most one, with the hash of its branch.
use mathlib.Core.List.{map}
use mathlib.Core.Path.{ap₂}
use mintmaker.Base.{
  Option, none, some, List, [], ◌∷◌, Str, Result, ok, err, inl, inr, ◌≡◌, refl, ◌⊎◌, ◌∙◌, ◌++◌,
  Bool, true, false,
}
use mintmaker.Tekton.Types.{PipelineRun}
use mintmaker.Cluster.Objects.{Secret, ConfigMap, Object, Ref, ref_of}
use mintmaker.Cluster.Client.{
  Client, World, Effect, History, ◌>>=◌, pure, perform, note, accepted, created_runs,
}
use mintmaker.Cluster.Preserves.{
  Preserves, IsStable, Leads, >>=-Preserves, pure-Preserves, lift-Preserves, attempt-Preserves,
  asking-Preserves, any-Yields, then-Leads, after-Leads,
}
use mintmaker.Component.Interface.{GitComponent}
use mintmaker.Controller.Create.{
  Reconciler, release, delete_all, creating, track, create_secret, create_config_map, create_run,
  create_rpm_secret,
}
use mintmaker.Controller.Run.{
  own_secret, own_rpm, own_config_map, create_objects, create_pipeline_run,
}
use mintmaker.Controller.Run.Stable.{
  merged_docker_config-Preserves, token_values-Preserves, define_run-Preserves,
}
use mintmaker.Controller.Run.Labels.{hash_of, branch_hash, define_run-Yields}

-- The hash labels of the runs that were created, the latest first.
abbrev pub created_hashes : History → List (Option Str)
created_hashes h = map hash_of (created_runs h)

-- The hash labels of the created runs are these.
pub record Hashed (hashes : List (Option Str)) (w : World) : Type 0 where
  pub hashed : created_hashes w.history ≡ hashes

-- They are the old ones, or have one more, in front.
pub record MayAdd (h : Option Str) (hashes : List (Option Str)) (w : World) : Type 0 where
  pub added : (created_hashes w.history ≡ hashes) ⊎ (created_hashes w.history ≡ h ∷ hashes)

pub Hashed-IsStable : (hashes : List (Option Str)) → IsStable (Hashed hashes)
Hashed-IsStable hashes = record {
  reads = λ w h. record { hashed = h.hashed };
  draws = λ w n h. record { hashed = h.hashed };
}

-- An object that is no pipeline run.
abbrev IsOther : Object → Type 0
IsOther (Object.secret s) = Unit
IsOther (Object.config_map c) = Unit
IsOther (Object.pipeline_run p) = ⊥
IsOther (Object.check c) = ⊥
IsOther (Object.event e) = ⊥

other_hashes :
    (o : Object) (a : Bool) (h : History)
    → IsOther o
    → created_hashes (Effect.create o a ∷ h) ≡ created_hashes h
other_hashes (Object.secret s) true h k = refl
other_hashes (Object.secret s) false h k = refl
other_hashes (Object.config_map c) true h k = refl
other_hashes (Object.config_map c) false h k = refl
other_hashes (Object.pipeline_run p) a h k = absurd k
other_hashes (Object.check c) a h k = absurd k
other_hashes (Object.event e) a h k = absurd k

module _ (hashes : List (Option Str)) where
  creating_from :
      {A : Type 0} (o : Object) (w : World) (x : Result A)
      → IsOther o
      → Hashed hashes w
      → let w' = note (Effect.create o (accepted x)) w in
        Hashed hashes
          (elim x as (λ _. Result A × World) [
            | ok a ↦ (ok a, record w' { resources = w'.resources ++ ref_of o ∷ [] })
            | err e ↦ (err e, w')
          ]).1
  creating_from o w (ok a) k h = record { hashed = other_hashes o true w.history k ∙ h.hashed }
  creating_from o w (err e) k h = record { hashed = other_hashes o false w.history k ∙ h.hashed }

  creating-Hashed :
      {A : Type 0} (o : Object) (call : History → Result A)
      → IsOther o
      → Preserves (Hashed hashes) (creating o call)
  unfolding creating perform track pure ◌>>=◌
  creating-Hashed o call k = record { keep = λ w h. creating_from o w (call w.history) k h }

  create_rpm_secret-Hashed :
      (client : Client) (name : Str) (key : Result (Str × Str))
      → Preserves (Hashed hashes) (create_rpm_secret client name key)
  unfolding create_rpm_secret create_secret
  create_rpm_secret-Hashed client name (err e) = pure-Preserves _
  create_rpm_secret-Hashed client name (ok key) =
      >>=-Preserves (creating-Hashed _ _ tt) (λ stored. pure-Preserves _)

module _ (k : Option Str) (hashes : List (Option Str)) where
  weaken : (w : World) → Hashed hashes w → MayAdd k hashes w
  weaken w h = record { added = inl h.hashed }

  create_from :
      {A : Type 0} (p : PipelineRun) (w : World) (x : Result A)
      → hash_of p ≡ k
      → Hashed hashes w
      → let w' = note (Effect.create (Object.pipeline_run p) (accepted x)) w in
        MayAdd k hashes
          (elim x as (λ _. Result A × World) [
            | ok a ↦ (
              ok a,
              record w' { resources = w'.resources ++ ref_of (Object.pipeline_run p) ∷ [] },
            )
            | err e ↦ (err e, w')
          ]).1
  create_from p w (ok a) e h = record { added = inr (ap₂ (λ x xs. x ∷ xs) e h.hashed) }
  create_from p w (err x) e h = record { added = inl h.hashed }

  create_run-MayAdd :
      (client : Client) (p : PipelineRun)
      → hash_of p ≡ k
      → Leads (Hashed hashes) (MayAdd k hashes) (create_run client p)
  unfolding create_run creating perform track pure ◌>>=◌
  create_run-MayAdd client p e = record {
    lead = λ w h. create_from p w (client.create_pipeline_run w.history p) e h;
  }

  update-MayAdd :
      {A : Type 0} (o : Object) (call : History → Result A)
      → Preserves (MayAdd k hashes) (perform call (Effect.update o))
  unfolding perform
  update-MayAdd o call = record { keep = λ w h. record { added = h.added } }

  own_secret-MayAdd :
      (r : Reconciler) (run : PipelineRun) (s : Secret)
      → Preserves (MayAdd k hashes) (own_secret r run s)
  unfolding own_secret
  own_secret-MayAdd r run s = >>=-Preserves (lift-Preserves _) (λ owners. update-MayAdd _ _)

  own_rpm-MayAdd :
      (r : Reconciler) (run : PipelineRun) (s : Option Secret)
      → Preserves (MayAdd k hashes) (own_rpm r run s)
  unfolding own_rpm
  own_rpm-MayAdd r run none = pure-Preserves _
  own_rpm-MayAdd r run (some s) =
      >>=-Preserves (own_secret-MayAdd r run s) (λ owned. pure-Preserves _)

  own_config_map-MayAdd :
      (r : Reconciler) (run : PipelineRun) (c : ConfigMap)
      → Preserves (MayAdd k hashes) (own_config_map r run c)
  unfolding own_config_map
  own_config_map-MayAdd r run c = >>=-Preserves (lift-Preserves _) (λ owners. update-MayAdd _ _)

  delete_all-MayAdd :
      (client : Client) (rs : List Ref) (w : World)
      → MayAdd k hashes w
      → MayAdd k hashes (delete_all client rs w)
  unfolding delete_all
  delete_all-MayAdd client [] w h = h
  delete_all-MayAdd client (x ∷ rs) w h = delete_all-MayAdd client rs _ (record { added = h.added })

module _ (r : Reconciler) (comp : GitComponent) (branch : Str) (hashes : List (Option Str)) where
  create_objects-MayAdd :
      (name kite_secret : Str)
      → Leads
          (Hashed hashes)
          (MayAdd (some (branch_hash r comp branch)) hashes)
          (create_objects r name comp branch kite_secret)
  unfolding create_objects create_secret create_config_map
  create_objects-MayAdd name kite_secret =
      let stable = Hashed-IsStable hashes in
      let wk = weaken (some (branch_hash r comp branch)) hashes in
      let h : Option Str = some (branch_hash r comp branch) in
      after-Leads wk (token_values-Preserves stable comp) (any-Yields _) λ token _.
        after-Leads wk (merged_docker_config-Preserves stable r.client r.platform comp)
          (any-Yields _)
          λ docker _. after-Leads wk (creating-Hashed hashes _ _ tt) (any-Yields _) λ secret _.
            after-Leads wk (asking-Preserves _ stable) (any-Yields _) λ config _.
              after-Leads wk (creating-Hashed hashes _ _ tt) (any-Yields _) λ config_map _.
                after-Leads wk (attempt-Preserves (asking-Preserves _ stable)) (any-Yields _)
                  λ key _.
                    after-Leads wk (create_rpm_secret-Hashed hashes r.client name key)
                      (any-Yields _)
                      λ rpm _.
                        after-Leads wk
                          (define_run-Preserves stable r name comp branch kite_secret secret rpm)
                          (define_run-Yields r comp branch name kite_secret secret rpm)
                          λ definition e.
                            then-Leads (create_run-MayAdd h hashes r.client definition e) λ run.
                              >>=-Preserves (own_secret-MayAdd h hashes r run secret)
                                λ owned_secret.
                                  >>=-Preserves (own_rpm-MayAdd h hashes r run rpm) λ owned_rpm.
                                    >>=-Preserves (own_config_map-MayAdd h hashes r run config_map)
                                      λ owned_config. pure-Preserves _

  -- One call creates at most one run, which carries the hash of the call's branch.
  pub create_pipeline_run-MayAdd :
      (name kite_secret : Str)
      → Leads
          (Hashed hashes)
          (MayAdd (some (branch_hash r comp branch)) hashes)
          (create_pipeline_run r name comp branch kite_secret)
  unfolding create_pipeline_run release
  create_pipeline_run-MayAdd name kite_secret = record {
    lead = λ w h. delete_all-MayAdd (some (branch_hash r comp branch)) hashes r.client _ _ (
        (then-Leads (create_objects-MayAdd name kite_secret)
            (λ run. >>=-Preserves release-MayAdd (λ _. pure-Preserves _))).lead
          (record w { resources = [] }) (record { hashed = h.hashed }));
  }
    where
      release-MayAdd : Preserves (MayAdd (some (branch_hash r comp branch)) hashes) release
      release-MayAdd = record { keep = λ w h. record { added = h.added } }
