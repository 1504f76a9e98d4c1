-- ===== src/Controller/Run/Cleanup.antt =====
-- `createPipelineRun` leaves nothing behind when it fails.
use mathlib.Core.List.{reverse, reverse-append, reverse-cons}
use mintmaker.Base.{
  Option, none, some, List, [], ◌∷◌, ◌++◌, Str, Result, ok, err, ◌≡◌, refl, sym, ap, ◌∙◌,
  append_assoc,
}
use mintmaker.Tekton.Types.{PipelineRun}
use mintmaker.Cluster.Objects.{Secret, ConfigMap, Object, Ref, ref_of}
use mintmaker.Cluster.Client.{
  Client, World, Effect, History, ◌>>=◌, pure, perform, note, accepted, created, deleted,
}
use mintmaker.Cluster.Preserves.{
  Preserves, IsStable, >>=-Preserves, pure-Preserves, lift-Preserves, attempt-Preserves,
  asking-Preserves,
}
use mintmaker.Component.Interface.{GitComponent}
use mintmaker.Controller.Create.{
  Reconciler, release, delete_all, create_secret, create_config_map, create_run, create_rpm_secret,
  creating, track,
}
use mintmaker.Controller.Run.{
  own_secret, own_rpm, own_config_map, create_objects, create_pipeline_run,
}
use mintmaker.Controller.Run.Stable.{
  merged_docker_config-Preserves, token_values-Preserves, define_run-Preserves,
}

-- What was created since `made` is what `resources` lists, and nothing was deleted since `gone`.
record Tracks (made gone : List Ref) (w : World) : Type 0 where
  made_listed : created w.history ≡ reverse w.resources ++ made
  none_gone : deleted w.history ≡ gone

module _ (made gone : List Ref) where
  Tracks-IsStable : IsStable (Tracks made gone)
  Tracks-IsStable = record {
    reads = λ w h. record { made_listed = h.made_listed; none_gone = h.none_gone };
    draws = λ w n h. record { made_listed = h.made_listed; none_gone = h.none_gone };
  }

  creating_from :
      {A : Type 0} (o : Object) (w : World) (r : Result A)
      → Tracks made gone w
      → let w' = note (Effect.create o (accepted r)) w in
        Tracks made gone
          (elim r as (λ _. Result A × World) [
            | ok a ↦ (ok a, record w' { resources = w'.resources ++ ref_of o ∷ [] })
            | err e ↦ (err e, w')
          ]).1
  creating_from o w (ok a) h = record {
    made_listed =
        ap (λ l. ref_of o ∷ l) h.made_listed
        ∙ ap (λ l. l ++ made) (sym (reverse-append w.resources (ref_of o ∷ [])));
    none_gone = h.none_gone;
  }
  creating_from o w (err e) h = record { made_listed = h.made_listed; none_gone = h.none_gone }

  creating-Tracks :
      {A : Type 0} (o : Object) (call : History → Result A)
      → Preserves (Tracks made gone) (creating o call)
  unfolding creating perform track pure ◌>>=◌
  creating-Tracks o call = record { keep = λ w h. creating_from o w (call w.history) h }

  create_rpm_secret-Tracks :
      (client : Client) (name : Str) (key : Result (Str × Str))
      → Preserves (Tracks made gone) (create_rpm_secret client name key)
  unfolding create_rpm_secret create_secret
  create_rpm_secret-Tracks client name (err e) = pure-Preserves _
  create_rpm_secret-Tracks client name (ok key) =
      >>=-Preserves (creating-Tracks _ _) (λ stored. pure-Preserves _)

  update-Tracks :
      {A : Type 0} (o : Object) (call : History → Result A)
      → Preserves (Tracks made gone) (perform call (Effect.update o))
  unfolding perform
  update-Tracks o call = record {
    keep = λ w h. record { made_listed = h.made_listed; none_gone = h.none_gone };
  }

  own_secret-Tracks :
      (r : Reconciler) (run : PipelineRun) (s : Secret)
      → Preserves (Tracks made gone) (own_secret r run s)
  unfolding own_secret
  own_secret-Tracks r run s = >>=-Preserves (lift-Preserves _) (λ owners. update-Tracks _ _)

  own_rpm-Tracks :
      (r : Reconciler) (run : PipelineRun) (s : Option Secret)
      → Preserves (Tracks made gone) (own_rpm r run s)
  unfolding own_rpm
  own_rpm-Tracks r run none = pure-Preserves _
  own_rpm-Tracks r run (some s) =
      >>=-Preserves (own_secret-Tracks r run s) (λ owned. pure-Preserves _)

  own_config_map-Tracks :
      (r : Reconciler) (run : PipelineRun) (c : ConfigMap)
      → Preserves (Tracks made gone) (own_config_map r run c)
  unfolding own_config_map
  own_config_map-Tracks r run c = >>=-Preserves (lift-Preserves _) (λ owners. update-Tracks _ _)

  create_objects-Tracks :
      (r : Reconciler) (name : Str) (comp : GitComponent) (branch kite_secret : Str)
      → Preserves (Tracks made gone) (create_objects r name comp branch kite_secret)
  unfolding create_objects create_secret create_config_map create_run
  create_objects-Tracks r name comp branch kite_secret =
      let stable = Tracks-IsStable in
      >>=-Preserves (token_values-Preserves stable comp) λ token.
        >>=-Preserves (merged_docker_config-Preserves stable r.client r.platform comp) λ docker.
          >>=-Preserves (creating-Tracks _ _) λ secret.
            >>=-Preserves (asking-Preserves _ stable) λ config.
              >>=-Preserves (creating-Tracks _ _) λ config_map.
                >>=-Preserves (attempt-Preserves (asking-Preserves _ stable)) λ key.
                  >>=-Preserves (create_rpm_secret-Tracks r.client name key) λ rpm.
                    >>=-Preserves
                      (define_run-Preserves stable r name comp branch kite_secret secret rpm)
                      λ definition. >>=-Preserves (creating-Tracks _ _) λ run.
                        >>=-Preserves (own_secret-Tracks r run secret) λ owned_secret.
                          >>=-Preserves (own_rpm-Tracks r run rpm) λ owned_rpm.
                            >>=-Preserves (own_config_map-Tracks r run config_map)
                              λ owned_config. pure-Preserves _

-- The deferred loop deletes the references in their order, and creates nothing.
delete_all-history :
    (client : Client) (rs : List Ref) (w : World)
    → (deleted (delete_all client rs w).history ≡ reverse rs ++ deleted w.history)
      × (created (delete_all client rs w).history ≡ created w.history)
unfolding delete_all
delete_all-history client [] w = (refl, refl)
delete_all-history client (r ∷ rs) w =
    let w' = note (Effect.delete r (accepted (client.delete_object w.history r))) w in
    let (gone, made) = delete_all-history client rs w' in
    (
      gone
          ∙ sym (
              ap (λ l. l ++ deleted w.history) (reverse-cons r rs)
              ∙ append_assoc (reverse rs) (r ∷ []) (deleted w.history)),
      made,
    )

-- How a call that began at `h` ended at `h'`: with the run, and nothing is deleted; or with an
-- error, and the references that were deleted are those that were created, in the same order.
abbrev pub LeavesNothing : Result PipelineRun → History → History → Type 0
LeavesNothing (ok run) h h' =
    (rs : List Ref) × (created h' ≡ rs ++ created h) × (deleted h' ≡ deleted h)
LeavesNothing (err e) h h' =
    (rs : List Ref) × (created h' ≡ rs ++ created h) × (deleted h' ≡ rs ++ deleted h)

-- Whatever the cluster and the component answer, `createPipelineRun` deletes nothing when it
-- succeeds, and when it fails it deletes exactly the objects that it created, in the order of their
-- creation.
pub create_pipeline_run-LeavesNothing :
    (r : Reconciler) (name : Str) (comp : GitComponent) (branch kite_secret : Str) (w : World)
    → let (result, w') = create_pipeline_run r name comp branch kite_secret w in
      LeavesNothing result w.history w'.history
unfolding create_pipeline_run release ◌>>=◌ pure delete_all
create_pipeline_run-LeavesNothing r name comp branch kite_secret w =
    let start : World = record w { resources = [] } in
    let tracked =
      (create_objects-Tracks (created w.history) (deleted w.history) r name comp branch
          kite_secret).keep
        start (record { made_listed = refl; none_gone = refl }) in
    finish (create_objects r name comp branch kite_secret start).0
      (create_objects r name comp branch kite_secret start).1 tracked
  where
    finish :
        (result : Result PipelineRun) (w' : World)
        → Tracks (created w.history) (deleted w.history) w'
        → let (result', w'') = elim result as (λ _. Result PipelineRun × World) [
          | ok run ↦ (ok run, record w' { resources = [] })
          | err e ↦ (err e, w')
        ] in
          LeavesNothing result' w.history (delete_all r.client w''.resources w'').history
    finish (ok run) w' h = (reverse w'.resources, h.made_listed, h.none_gone)
    finish (err e) w' h =
        let (gone, made) = delete_all-history r.client w'.resources w' in
        (
          reverse w'.resources,
          made ∙ h.made_listed,
          gone ∙ ap (λ l. reverse w'.resources ++ l) h.none_gone,
        )
