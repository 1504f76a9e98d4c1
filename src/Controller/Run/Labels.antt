-- ===== src/Controller/Run/Labels.antt =====
-- The run that `createPipelineRun` creates carries the hash of its repository and branch.
use mintmaker.Base.{
  Option, none, some, List, [], ◌∷◌, Str, Result, ok, err, Option-cases, inl, inr, lookup, insert,
  insert_all, str_eq, ◌≡◌, refl, subst, ok-injective,
}
use mintmaker.Tekton.Types.{PipelineRun}
use mintmaker.Tekton.Builder.{
  Builder, with_labels, with_timeouts, with_service_account, with_config_map, with_secret,
  with_kite_integration, new_pipeline_run_builder, build,
}
use mintmaker.Utils.Names.{repo_branch_hash}
use mintmaker.Cluster.Objects.{Secret, ConfigMap, docker_config_key, hash_label}
use mintmaker.Cluster.Preserves.{Yields, >>=-Yields, pure-Yields, lift-Yields, any-Yields}
use mintmaker.Component.Interface.{GitComponent}
use mintmaker.Controller.Create.{Reconciler, run_labels}
use mintmaker.Controller.Run.{
  base_builder, mount_token, mount_rpm, mount_ca, mount_docker, kite_mounts, mount_kite, build_run,
  define_run,
}

-- The value of the hash label of a run.
abbrev pub hash_of : PipelineRun → Option Str
hash_of run = lookup hash_label run.labels

module _ (r : Reconciler) (comp : GitComponent) (branch : Str) where
  abbrev pub branch_hash : Str
  branch_hash = repo_branch_hash r.sha256 comp.host comp.repository branch

  abbrev IsLabelled : Builder → Type 0
  IsLabelled b = lookup hash_label b.run.labels ≡ some branch_hash

  base_builder-IsLabelled : (name : Str) → IsLabelled (base_builder r name comp branch)
  unfolding base_builder with_config_map with_service_account with_timeouts with_labels
      new_pipeline_run_builder run_labels insert_all insert lookup str_eq hash_label
  base_builder-IsLabelled name = refl

  mount_token-Yields :
      (name : Str) (b : Builder) → IsLabelled b → Yields IsLabelled (mount_token r.platform name b)
  unfolding mount_token with_secret
  mount_token-Yields name b h = >>=-Yields (any-Yields _) (λ suffix _. pure-Yields _ h)

  mount_rpm-Yields :
      (name : Str) (s : Option Secret) (b : Builder)
      → IsLabelled b
      → Yields IsLabelled (mount_rpm r.platform name s b)
  unfolding mount_rpm with_secret
  mount_rpm-Yields name none b h = pure-Yields _ h
  mount_rpm-Yields name (some s) b h = >>=-Yields (any-Yields _) (λ suffix _. pure-Yields _ h)

  mount_ca-IsLabelled :
      (ca : Result (Option ConfigMap)) (b : Builder) → IsLabelled b → IsLabelled (mount_ca ca b)
  unfolding mount_ca with_config_map
  mount_ca-IsLabelled (err e) b h = h
  mount_ca-IsLabelled (ok none) b h = h
  mount_ca-IsLabelled (ok (some c)) b h = h

  mount_docker-Yields :
      (s : Secret) (b : Builder) → IsLabelled b → Yields IsLabelled (mount_docker r.platform s b)
  unfolding mount_docker with_secret
  mount_docker-Yields s b h = elim (Option-cases (lookup docker_config_key s.values)) [
    | inl e ↦ rw (e, mount_docker) (pure-Yields _ h)
    | inr (text, e) ↦ rw (e, mount_docker) (>>=-Yields (any-Yields _) (λ suffix _. pure-Yields _ h))
  ]

  mount_kite-Yields :
      (kite_secret : Str) (b : Builder)
      → IsLabelled b
      → Yields IsLabelled (mount_kite r kite_secret b)
  unfolding mount_kite kite_mounts with_secret with_config_map with_kite_integration
  mount_kite-Yields [] b h = pure-Yields _ h
  mount_kite-Yields (c ∷ kite_secret) b h = >>=-Yields (any-Yields _) (λ suffix _. pure-Yields _ h)

  build_run-hash :
      (b : Builder) (errors : List Str) (run : PipelineRun)
      → b.errors ≡ errors
      → build_run b ≡ ok run
      → IsLabelled b
      → hash_of run ≡ some branch_hash
  unfolding build_run build
  build_run-hash b [] run e built h =
      subst (λ x. hash_of x ≡ some branch_hash) (ok-injective (rw (e, build_run) at built)) h
  build_run-hash b (x ∷ errors) run e built h = cc (rw (e, build_run) at built)

  pub define_run-Yields :
      (name kite_secret : Str) (secret : Secret) (rpm : Option Secret)
      → Yields
          (λ run. hash_of run ≡ some branch_hash)
          (define_run r name comp branch kite_secret secret rpm)
  unfolding define_run
  define_run-Yields name kite_secret secret rpm =
      >>=-Yields (mount_token-Yields name _ (base_builder-IsLabelled name)) λ b₁ h₁.
        >>=-Yields (mount_rpm-Yields name rpm b₁ h₁) λ b₂ h₂. >>=-Yields (any-Yields _) λ ca _.
          >>=-Yields (mount_docker-Yields secret _ (mount_ca-IsLabelled ca b₂ h₂)) λ b₃ h₃.
            >>=-Yields (mount_kite-Yields kite_secret b₃ h₃)
              λ b₄ h₄. lift-Yields _ (λ run e. build_run-hash b₄ b₄.errors run refl e h₄)
