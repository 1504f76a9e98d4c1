-- ===== src/Controller/Create.antt =====
-- internal/controller/dependencyupdatecheck_controller.go: `createPipelineRun` and the helpers
-- that it calls. The variable `resources` is a field of the world.
use mintmaker.Base.{
  ℕ, ◌+◌, Bool, Option, none, some, List, [], ◌∷◌, ◌++◌, Str, String, codes, str_eq, Dict, Result,
  ok, err, if◌then◌else◌,
}
use mintmaker.Utils.Label.{normalize_label_value}
use mintmaker.Utils.Names.{random_size, random_string, repo_branch_hash}
use mintmaker.Tekton.Types.{PipelineRun, KeyToPath}
use mintmaker.Tekton.Builder.{MountOptions, new_mount_options, with_task_name, with_step_names}
use mintmaker.Cluster.Objects.{
  Secret, ConfigMap, Object, Ref, ref_of, mintmaker_namespace, hash_label, docker_config_key,
}
use mintmaker.Cluster.Client.{
  Client, Platform, Action, World, Effect, History, ◌>>=◌, ◌>>◌, pure, asking, perform, note,
  accepted,
}
use mintmaker.Component.Interface.{GitComponent, Factory}

-- `DependencyUpdateCheckReconciler`, with what it takes from the platform and the Kite part of
-- the configuration.
pub record Reconciler : Type 0 where
  pub client : Client
  pub platform : Platform
  pub sha256 : Str → Str
  pub new_git_component : Factory
  pub kite_enabled : Bool
  pub kite_api_url : Str

-- `utils.RandomString`
unfoldable pub draw_string : Platform → ℕ → Action Str
draw_string platform n w = (
  ok (random_string n (platform.random_bytes w.draws (random_size n))),
  record w { draws = w.draws + 1 },
)

-- `time.Now().UTC().Format("01021504")`
unfoldable pub current_time : Platform → Action Str
current_time platform w = (ok (platform.timestamp w.history), w)

-- `resources = append(resources, o)`
unfoldable pub track : Object → Action (Unit {0})
track o w = (ok tt, record w { resources = w.resources ++ ref_of o ∷ [] })

-- `resources = nil`
unfoldable pub release : Action (Unit {0})
release w = (ok tt, record w { resources = [] })

-- The deferred loop, which ignores the errors of the deletions.
unfoldable pub delete_all : Client → List Ref → World → World
delete_all client [] w = w
delete_all client (r ∷ rs) w =
    delete_all client rs (note (Effect.delete r (accepted (client.delete_object w.history r))) w)

-- `getCAConfigMap`
unfoldable pub ca_config_map : Client → Action (Option ConfigMap)
ca_config_map client = do
  items ← asking (λ h.
      client.list_config_maps h mintmaker_namespace
        (codes "config.openshift.io/inject-trusted-cabundle") (codes "true"))
  pure (elim items [ [] ↦ none | c ∷ cs ↦ some c ])

-- The token of the secret, which a GitHub component gets later.
unfoldable pub token_values : GitComponent → Action (Dict Str)
token_values comp =
    if str_eq comp.platform (codes "github")
    then pure []
    else do token ← asking comp.get_token; pure ((codes "renovate-token", token) ∷ [])

-- `renovateSecret` before its creation
unfoldable pub renovate_secret : Str → Dict Str → Option Str → Secret
renovate_secret name token docker = record {
  name = name;
  namespace = mintmaker_namespace;
  type = codes "Opaque";
  labels = [];
  annotations = [];
  values = elim docker [
    | none ↦ []
    | some [] ↦ []
    | some (c ∷ text) ↦ (docker_config_key, c ∷ text) ∷ []
  ];
  string_values = token;
  owners = [];
}

-- `renovateConfigMap` before its creation
unfoldable pub renovate_config_map : Str → Str → ConfigMap
renovate_config_map name config = record {
  name = name;
  namespace = mintmaker_namespace;
  values = (codes "config.js", codes "module.exports = " ++ config) ∷ [];
  owners = [];
}

unfoldable pub rpm_secret_name : Str → Str
rpm_secret_name name = name ++ codes "-rpm-key"

-- `rpmSecret` before its creation
unfoldable pub rpm_secret : Str → Str × Str → Secret
rpm_secret name (activation_key, org) = record {
  name = rpm_secret_name name;
  namespace = mintmaker_namespace;
  type = codes "Opaque";
  labels = [];
  annotations = [];
  values = [];
  string_values = (codes "activationkey", activation_key) ∷ (codes "org", org) ∷ [];
  owners = [];
}

-- A creation, which appends the object to `resources` if the API accepts it.
unfoldable pub creating : {A : Type 0} → Object → (History → Result A) → Action A
creating o call = do stored ← perform call (Effect.create o); track o; pure stored

unfoldable pub create_secret : Client → Secret → Action Secret
unfolding creating
create_secret client s = creating (Object.secret s) (λ h. client.create_secret h s)

unfoldable pub create_config_map : Client → ConfigMap → Action ConfigMap
unfolding creating
create_config_map client c = creating (Object.config_map c) (λ h. client.create_config_map h c)

unfoldable pub create_run : Client → PipelineRun → Action PipelineRun
unfolding creating
create_run client p = creating (Object.pipeline_run p) (λ h. client.create_pipeline_run h p)

-- The secret with the activation key, if the component has one.
unfoldable pub create_rpm_secret : Client → Str → Result (Str × Str) → Action (Option Secret)
create_rpm_secret client name (err e) = pure none
create_rpm_secret client name (ok key) = do
  stored ← create_secret client (rpm_secret name key)
  pure (some stored)

-- The labels of the run.
unfoldable pub run_labels : Reconciler → GitComponent → Str → Dict Str
run_labels r comp branch =
    (codes "mintmaker.appstudio.redhat.com/application", comp.application)
    ∷ (codes "mintmaker.appstudio.redhat.com/component", comp.name)
    ∷ (codes "mintmaker.appstudio.redhat.com/namespace", comp.namespace)
    ∷ (codes "mintmaker.appstudio.redhat.com/git-platform", comp.platform)
    ∷ (codes "mintmaker.appstudio.redhat.com/git-host", comp.host)
    ∷ (codes "mintmaker.appstudio.redhat.com/repository", normalize_label_value comp.repository)
    ∷ (codes "mintmaker.appstudio.redhat.com/branch", normalize_label_value branch)
    ∷ (hash_label, repo_branch_hash r.sha256 comp.host comp.repository branch)
    ∷ []

abbrev pub item : String → String → KeyToPath
item key path = record { key = codes key; path = codes path }

-- The options of every mount: the task `build` and one step.
abbrev pub mount_to : String → MountOptions
mount_to step = with_step_names (codes step ∷ []) (with_task_name (codes "build") new_mount_options)
