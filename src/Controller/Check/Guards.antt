-- ===== src/Controller/Check/Guards.antt =====
-- internal/controller/dependencyupdatecheck_controller.go: what keeps `Reconcile` from creating.
use mintmaker.Base.{
  true, false, List, [], ◌∷◌, Str, ok, Bool-cases, inl, inr, has_value, codes, ◌≡◌, ◌≢◌, refl, ◌⊎◌,
  ◌↔◌, arith, str_eq→eq, str_eq_refl, In,
}
use mintmaker.Tekton.Types.{PipelineRun, Condition, ConditionStatus}
use mintmaker.Utils.Names.{repo_branch_hash}
use mintmaker.Cluster.Objects.{AppComponent, disabled_annotation, mintmaker_namespace, hash_label}
use mintmaker.Cluster.Client.{World, Effect, ◌>>=◌, pure, attempt, note, perform}
use mintmaker.Component.Interface.{GitComponent}
use mintmaker.Controller.Create.{Reconciler}
use mintmaker.Controller.Check.{
  is_known, conditions_completed, pipeline_run_completed, any_active, has_active_pipeline_run,
  unless_active, try_branch, enabled_components,
}

-- A run is active: its first condition `Succeeded` is unknown, or there is none.
abbrev pub IsActive : List Condition → Type 0
IsActive [] = Unit
IsActive (c ∷ cs) =
    ((c.type ≡ codes "Succeeded") × (c.status ≡ ConditionStatus.status_unknown))
    ⊎ ((c.type ≢ codes "Succeeded") × IsActive cs)

conditions_completed-active : (cs : List Condition) → IsActive cs → conditions_completed cs ≡ false
unfolding conditions_completed is_known
conditions_completed-active [] h = refl
conditions_completed-active (c ∷ cs) (inl (named, unknown)) =
    rw (named, str_eq_refl (codes "Succeeded"), unknown) refl
conditions_completed-active (c ∷ cs) (inr (other, h)) =
    ground (arith, str_eq→eq c.type (codes "Succeeded"), conditions_completed-active cs h)

any_active-In :
    (runs : List PipelineRun) (run : PipelineRun)
    → In run runs
    → IsActive run.conditions
    → any_active runs ≡ true
unfolding any_active pipeline_run_completed
any_active-In [] run h a = absurd h
any_active-In (x ∷ runs) run (inl same) a =
    rw (conditions_completed-active x.conditions (rw (← same) at a)) refl
any_active-In (x ∷ runs) run (inr k) a = ground (arith, any_active-In runs run k a)

-- If the lookup by the hash label finds a run that is still active, the branch is passed over: the
-- lookup is the only call.
pub try_branch_active :
    (r : Reconciler) (timestamp kite_secret : Str) (comp : GitComponent) (branch : Str) (w : World)
    (runs : List PipelineRun) (run : PipelineRun)
    → r.client.list_pipeline_runs w.history mintmaker_namespace hash_label
        (repo_branch_hash r.sha256 comp.host comp.repository branch)
      ≡ ok runs
    → In run runs
    → IsActive run.conditions
    → try_branch r timestamp kite_secret comp branch w ≡ (ok tt, note Effect.read w)
unfolding try_branch has_active_pipeline_run unless_active ◌>>=◌ attempt perform pure
try_branch_active r timestamp kite_secret comp branch w runs run found here active =
    rw (found, any_active-In runs run here active) refl

-- The components that are kept are those without the annotation that disables them.
pub enabled_components-In :
    (cs : List AppComponent) (c : AppComponent)
    → In c (enabled_components cs)
      ↔ (In c cs × (has_value c.annotations disabled_annotation (codes "true") ≡ false))
unfolding enabled_components
enabled_components-In [] c = (absurd, λ h. absurd h.0)
enabled_components-In (d ∷ cs) c =
    step (Bool-cases (has_value d.annotations disabled_annotation (codes "true")))
      (enabled_components-In cs c)
  where
    step :
        (has_value d.annotations disabled_annotation (codes "true") ≡ true)
          ⊎ (has_value d.annotations disabled_annotation (codes "true") ≡ false)
        → In c (enabled_components cs)
          ↔ (In c cs × (has_value c.annotations disabled_annotation (codes "true") ≡ false))
        → In c (enabled_components (d ∷ cs))
          ↔ (In c (d ∷ cs) × (has_value c.annotations disabled_annotation (codes "true") ≡ false))
    step (inl off) ih = rw off (
      λ h. (inr (ih.0 h).0, (ih.0 h).1),
      λ (i, e). elim i [ inl same ↦ cc (off, rw (← same) at e) | inr k ↦ ih.1 (k, e) ],
    )
    step (inr on) ih = rw on (
      λ h. elim h [ inl same ↦ (inl same, rw same at on) | inr k ↦ (inr (ih.0 k).0, (ih.0 k).1) ],
      λ (i, e). elim i [ inl same ↦ inl same | inr k ↦ inr (ih.1 (k, e)) ],
    )
