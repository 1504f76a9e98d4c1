-- ===== src/Controller/Run.antt =====
-- internal/controller/dependencyupdatecheck_controller.go: `createPipelineRun`, in the order of
-- its calls. Each random volume name is drawn where the source calls `WithSecret`.
pub mod Stable
pub mod Cleanup
pub mod Labels
pub mod Hashes
use mintmaker.Base.{
  Bool, true, false, Option, none, some, List, [], ◌∷◌, Str, String, codes, is_empty, lookup, Error,
  Result, ok, err, failure, if◌then◌else◌,
}
use mintmaker.Tekton.Types.{PipelineRun, KeyToPath}
use mintmaker.Tekton.Builder.{
  Builder, with_read_only, new_pipeline_run_builder, with_labels, with_timeouts,
  with_service_account, with_config_map, with_secret, with_kite_integration, build,
}
use mintmaker.Cluster.Objects.{Secret, ConfigMap, Object, mintmaker_namespace, docker_config_key}
use mintmaker.Cluster.Client.{
  Client, Platform, Action, World, Effect, ◌>>=◌, ◌>>◌, pure, raise, lift, attempt, asking, perform,
}
use mintmaker.Component.Interface.{GitComponent}
use mintmaker.Controller.Docker.{merged_docker_config}
use mintmaker.Controller.Create.{
  Reconciler, draw_string, release, delete_all, ca_config_map, token_values, renovate_secret,
  renovate_config_map, rpm_secret_name, create_secret, create_config_map, create_run,
  create_rpm_secret, run_labels, item, mount_to,
}

-- The builder with its labels, the configuration and the service account.
unfoldable pub base_builder : Reconciler → Str → GitComponent → Str → Builder
base_builder r name comp branch =
    with_config_map name (codes "/etc/renovate/config") (item "config.js" "config.js" ∷ [])
      (some (mount_to "renovate"))
      (with_service_account (codes "mintmaker-controller-manager") (
        with_timeouts none (
          with_labels (run_labels r comp branch) (
            new_pipeline_run_builder r.platform.getenv r.platform.sanitizer name
              mintmaker_namespace))))

unfoldable pub mount_token : Platform → Str → Builder → Action Builder
mount_token platform name b = do
  suffix ← draw_string platform 8
  pure (
      with_secret suffix name (codes "/etc/renovate/secret")
        (item "renovate-token" "renovate-token" ∷ []) (some (mount_to "renovate")) b)

unfoldable pub mount_rpm : Platform → Str → Option Secret → Builder → Action Builder
mount_rpm platform name none b = pure b
mount_rpm platform name (some s) b = do
  suffix ← draw_string platform 8
  pure (
      with_secret suffix (rpm_secret_name name) (codes "/etc/renovate/secret")
        (item "activationkey" "rpm-activationkey" ∷ item "org" "rpm-org" ∷ [])
        (some (mount_to "prepare-rpm-cert")) b)

-- A failed lookup of the ConfigMap is only logged.
unfoldable pub mount_ca : Result (Option ConfigMap) → Builder → Builder
mount_ca (err e) b = b
mount_ca (ok none) b = b
mount_ca (ok (some c)) b =
    with_config_map c.name (codes "/etc/pki/ca-trust/extracted/pem")
      (item "ca-bundle.crt" "tls-ca-bundle.pem" ∷ [])
      (some (with_read_only true (mount_to "renovate"))) b

unfoldable pub mount_docker : Platform → Secret → Builder → Action Builder
mount_docker platform s b = elim (lookup docker_config_key s.values) [
  | none ↦ pure b
  | some text ↦ do
    suffix ← draw_string platform 8
    pure (
        with_secret suffix s.name (codes "/home/renovate/.docker")
          (record { key = docker_config_key; path = codes "config.json" } ∷ [])
          (some (with_read_only true (mount_to "renovate"))) b)
]

-- The builder with the step and the mounts of Kite.
unfoldable pub kite_mounts : Str → Str → Str → Builder → Builder
kite_mounts api_url kite_secret suffix b =
    with_secret suffix kite_secret (codes "/var/run/secrets/kite") (item "token" "token" ∷ [])
      (some (with_read_only true (mount_to "log-analyzer")))
      (with_config_map (codes "openshift-service-ca.crt") (codes "/etc/pki/kite-ca")
        (item "service-ca.crt" "ca.crt" ∷ []) (some (with_read_only true (mount_to "log-analyzer")))
        (with_kite_integration api_url b))

unfoldable pub mount_kite : Reconciler → Str → Builder → Action Builder
mount_kite r [] b = pure b
mount_kite r (c ∷ kite_secret) b = do
  suffix ← draw_string r.platform 8
  pure (kite_mounts r.kite_api_url (c ∷ kite_secret) suffix b)

-- `builder.Build()`, whose error is the first of those that were gathered
unfoldable pub build_run : Builder → Result PipelineRun
build_run b = elim (build b).1 [ [] ↦ ok (build b).0 | e ∷ es ↦ err (failure e) ]

unfoldable pub own_secret : Reconciler → PipelineRun → Secret → Action Secret
own_secret r run s = do
  owners ← lift (r.platform.set_owner run s.owners)
  perform (λ h. r.client.update_secret h (record s { owners = owners }))
      (Effect.update (Object.secret (record s { owners = owners })))

unfoldable pub own_config_map : Reconciler → PipelineRun → ConfigMap → Action ConfigMap
own_config_map r run c = do
  owners ← lift (r.platform.set_owner run c.owners)
  perform (λ h. r.client.update_config_map h (record c { owners = owners }))
      (Effect.update (Object.config_map (record c { owners = owners })))

unfoldable pub own_rpm : Reconciler → PipelineRun → Option Secret → Action (Option Secret)
own_rpm r run none = pure none
own_rpm r run (some s) = do owned ← own_secret r run s; pure (some owned)

-- The definition of the run, from the builder to `Build`.
unfoldable pub define_run :
    Reconciler → Str → GitComponent → Str → Str → Secret → Option Secret → Action PipelineRun
define_run r name comp branch kite_secret secret rpm = do
  with_token ← mount_token r.platform name (base_builder r name comp branch)
  with_rpm ← mount_rpm r.platform name rpm with_token
  ca ← attempt (ca_config_map r.client)
  with_docker ← mount_docker r.platform secret (mount_ca ca with_rpm)
  with_kite ← mount_kite r kite_secret with_docker
  lift (build_run with_kite)

-- The body up to the last call that may fail.
unfoldable pub create_objects : Reconciler → Str → GitComponent → Str → Str → Action PipelineRun
create_objects r name comp branch kite_secret = do
  token ← token_values comp
  docker ← merged_docker_config r.client r.platform comp
  secret ← create_secret r.client (renovate_secret name token docker)
  config ← asking (λ h. comp.get_renovate_config h secret branch)
  config_map ← create_config_map r.client (renovate_config_map name config)
  key ← attempt (asking comp.get_rpm_activation_key)
  rpm ← create_rpm_secret r.client name key
  definition ← define_run r name comp branch kite_secret secret rpm
  run ← create_run r.client definition
  owned_secret ← own_secret r run secret
  owned_rpm ← own_rpm r run rpm
  owned_config ← own_config_map r run config_map
  pure run

-- `createPipelineRun`, with its deferred deletions.
unfoldable pub create_pipeline_run :
    Reconciler → Str → GitComponent → Str → Str → Action PipelineRun
create_pipeline_run r name comp branch kite_secret w =
    let main = create_objects r name comp branch kite_secret >>= (λ run. release >> pure run) in
    let (result, w') = main (record w { resources = [] }) in
    (result, delete_all r.client w'.resources w')
