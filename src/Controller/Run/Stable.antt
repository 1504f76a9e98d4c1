-- ===== src/Controller/Run/Stable.antt =====
-- The parts of `createPipelineRun` that write nothing keep every property that reads and random
-- draws keep.
use mintmaker.Base.{
  ℕ, Option, none, some, List, [], ◌∷◌, Str, Result, ok, err, failure, not_found, Dict, Bool-cases,
  Option-cases, inl, inr, lookup, str_eq, codes,
}
use mintmaker.Tekton.Builder.{Builder}
use mintmaker.Cluster.Objects.{Secret, docker_config_key, Json, ServiceAccount}
use mintmaker.Cluster.Client.{Client, Platform, World, Action}
use mintmaker.Cluster.Preserves.{
  Preserves, IsStable, >>=-Preserves, pure-Preserves, raise-Preserves, lift-Preserves,
  attempt-Preserves, asking-Preserves,
}
use mintmaker.Component.Interface.{GitComponent}
use mintmaker.Controller.Docker.{
  merged_docker_config, merge_secrets, merge_found, merge_account, merge_auths,
}
use mintmaker.Controller.Create.{Reconciler, draw_string, ca_config_map, token_values}
use mintmaker.Controller.Run.{mount_token, mount_rpm, mount_docker, mount_kite, define_run}

module _ {P : World → Type 0} (stable : IsStable P) where
  pub draw_string-Preserves : (platform : Platform) (n : ℕ) → Preserves P (draw_string platform n)
  unfolding draw_string
  draw_string-Preserves platform n = record { keep = λ w h. stable.draws w _ h }

  merge_found-Preserves :
      (platform : Platform) (merged : Dict Json) (next : Dict Json → Action (Dict Json))
      (found : Result Secret)
      → ((m : Dict Json) → Preserves P (next m))
      → Preserves P (merge_found platform merged next found)
  unfolding merge_found
  merge_found-Preserves platform merged next (err not_found) k = k merged
  merge_found-Preserves platform merged next (err (failure message)) k = (raise-Preserves _)
  merge_found-Preserves platform merged next (ok s) k =
      >>=-Preserves (lift-Preserves _) (λ auths. k (merge_auths auths merged))

  merge_secrets-Preserves :
      (client : Client) (platform : Platform) (namespace : Str) (names : List Str)
      (merged : Dict Json)
      → Preserves P (merge_secrets client platform namespace names merged)
  unfolding merge_secrets
  merge_secrets-Preserves client platform namespace [] merged = (pure-Preserves _)
  merge_secrets-Preserves client platform namespace (name ∷ names) merged =
      >>=-Preserves (attempt-Preserves (asking-Preserves _ stable)) (λ found.
        merge_found-Preserves platform merged _ found
          (merge_secrets-Preserves client platform namespace names))

  merge_account-Preserves :
      (client : Client) (platform : Platform) (namespace : Str) (account : Result ServiceAccount)
      → Preserves P (merge_account client platform namespace account)
  unfolding merge_account
  merge_account-Preserves client platform namespace (err not_found) = (pure-Preserves _)
  merge_account-Preserves client platform namespace (err (failure message)) = (raise-Preserves _)
  merge_account-Preserves client platform namespace (ok account) =
      >>=-Preserves (merge_secrets-Preserves client platform namespace account.secrets [])
        (λ merged. (lift-Preserves _))

  pub merged_docker_config-Preserves :
      (client : Client) (platform : Platform) (comp : GitComponent)
      → Preserves P (merged_docker_config client platform comp)
  unfolding merged_docker_config
  merged_docker_config-Preserves client platform comp =
      >>=-Preserves (attempt-Preserves (asking-Preserves _ stable))
        (merge_account-Preserves client platform comp.namespace)

  pub token_values-Preserves : (comp : GitComponent) → Preserves P (token_values comp)
  unfolding token_values
  token_values-Preserves comp = elim (Bool-cases (str_eq comp.platform (codes "github"))) [
    | inl on ↦ rw on (pure-Preserves _)
    | inr off ↦ rw off (>>=-Preserves (asking-Preserves _ stable) (λ token. (pure-Preserves _)))
  ]

  mount_token-Preserves :
      (platform : Platform) (name : Str) (b : Builder) → Preserves P (mount_token platform name b)
  unfolding mount_token
  mount_token-Preserves platform name b =
      >>=-Preserves (draw_string-Preserves _ _) (λ suffix. (pure-Preserves _))

  mount_rpm-Preserves :
      (platform : Platform) (name : Str) (s : Option Secret) (b : Builder)
      → Preserves P (mount_rpm platform name s b)
  unfolding mount_rpm
  mount_rpm-Preserves platform name none b = (pure-Preserves _)
  mount_rpm-Preserves platform name (some s) b =
      >>=-Preserves (draw_string-Preserves _ _) (λ suffix. (pure-Preserves _))

  mount_docker-Preserves :
      (platform : Platform) (s : Secret) (b : Builder) → Preserves P (mount_docker platform s b)
  unfolding mount_docker
  mount_docker-Preserves platform s b = elim (Option-cases (lookup docker_config_key s.values)) [
    | inl e ↦ rw (e, mount_docker) (pure-Preserves _)
    | inr (text, e) ↦
        rw (e, mount_docker)
          (>>=-Preserves (draw_string-Preserves _ _) (λ suffix. (pure-Preserves _)))
  ]

  mount_kite-Preserves :
      (r : Reconciler) (kite_secret : Str) (b : Builder) → Preserves P (mount_kite r kite_secret b)
  unfolding mount_kite
  mount_kite-Preserves r [] b = (pure-Preserves _)
  mount_kite-Preserves r (c ∷ kite_secret) b =
      >>=-Preserves (draw_string-Preserves _ _) (λ suffix. (pure-Preserves _))

  pub define_run-Preserves :
      (r : Reconciler) (name : Str) (comp : GitComponent) (branch kite_secret : Str)
      (secret : Secret) (rpm : Option Secret)
      → Preserves P (define_run r name comp branch kite_secret secret rpm)
  unfolding define_run ca_config_map
  define_run-Preserves r name comp branch kite_secret secret rpm =
      >>=-Preserves (mount_token-Preserves r.platform name _) λ with_token.
        >>=-Preserves (mount_rpm-Preserves r.platform name rpm with_token) λ with_rpm.
          >>=-Preserves
            (attempt-Preserves
              (>>=-Preserves (asking-Preserves _ stable) (λ items. (pure-Preserves _))))
            λ ca. >>=-Preserves (mount_docker-Preserves r.platform secret _) λ with_docker.
              >>=-Preserves (mount_kite-Preserves r kite_secret with_docker)
                λ with_kite. (lift-Preserves _)
