-- ===== src/Cluster/Client.antt =====
-- The client of the Kubernetes API, which is not part of the repository, and the actions of the
-- controllers over it. Each answer may depend on the whole history of calls, so the environment
-- may change the cluster between any two of them.
use mintmaker.Base.{ℕ, Bool, true, false, Option, List, [], ◌∷◌, Str, Error, Result, ok, err}
use mintmaker.Tekton.Types.{PipelineRun}
use mintmaker.Cluster.Objects.{
  Secret, ConfigMap, ServiceAccount, AppComponent, DependencyUpdateCheck, Pod, Event, Object, Ref,
  ref_of, Fields, Json,
}

-- One call, with whether the API accepted it, or a sample of a metric.
pub data Effect : Type 0 where
  read : Effect
  create update patch : Object → Bool → Effect
  delete : Ref → Bool → Effect
  count_run : Bool → Effect
  record_check : Str → Str → Effect

-- The latest call comes first.
abbrev pub History : Type 0
History = List Effect

pub record Client : Type 0 where
  pub get_check : History → Str → Str → Result DependencyUpdateCheck
  pub get_component : History → Str → Str → Result AppComponent
  pub get_event : History → Str → Str → Result Event
  pub get_pod : History → Str → Str → Result Pod
  pub get_pipeline_run : History → Str → Str → Result PipelineRun
  pub get_secret : History → Str → Str → Result Secret
  pub get_service_account : History → Str → Str → Result ServiceAccount
  pub list_components : History → Option Str → Result (List AppComponent)
  pub list_config_maps : History → Str → Str → Str → Result (List ConfigMap)
  pub list_pipeline_runs : History → Str → Str → Str → Result (List PipelineRun)
  pub list_secrets : History → Str → Str → Str → Result (List Secret)
  pub create_secret : History → Secret → Result Secret
  pub create_config_map : History → ConfigMap → Result ConfigMap
  pub create_pipeline_run : History → PipelineRun → Result PipelineRun
  pub update_check : History → DependencyUpdateCheck → Result DependencyUpdateCheck
  pub update_secret : History → Secret → Result Secret
  pub update_config_map : History → ConfigMap → Result ConfigMap
  pub patch_event : History → Event → Result Event
  pub patch_pipeline_run : History → PipelineRun → Result PipelineRun
  pub delete_object : History → Ref → Result (Unit {0})

-- `resources` is the local variable of that name of the running `createPipelineRun`; `draws`
-- counts the reads of the random generator.
pub record World : Type 0 where
  pub history : History
  pub draws : ℕ
  pub resources : List Ref

abbrev pub Action {ℓ} : Type ℓ → Type ℓ
Action A = World → Result A × World

infixl 5 ◌>>=◌ ◌>>◌
unfoldable pub ◌>>=◌ {ℓ κ} : {A : Type ℓ} {B : Type κ} → Action A → (A → Action B) → Action B
◌>>=◌ m f w = let (r, w') = m w in elim r [ ok a ↦ f a w' | err e ↦ (err e, w') ]

abbrev pub ◌>>◌ {ℓ κ} : {A : Type ℓ} {B : Type κ} → Action A → Action B → Action B
m >> k = m >>= λ _. k

unfoldable pub pure {ℓ} : {A : Type ℓ} → A → Action A
pure a w = (ok a, w)

unfoldable pub raise {ℓ} : {A : Type ℓ} → Error → Action A
raise e w = (err e, w)

unfoldable pub lift {ℓ} : {A : Type ℓ} → Result A → Action A
lift r w = (r, w)

-- A call whose error the caller handles.
unfoldable pub attempt {ℓ} : {A : Type ℓ} → Action A → Action (Result A)
attempt m w = let (r, w') = m w in (ok r, w')

abbrev pub accepted {ℓ} : {A : Type ℓ} → Result A → Bool
accepted (ok a) = true
accepted (err e) = false

abbrev pub note : Effect → World → World
note e w = record w { history = e ∷ w.history }

unfoldable pub emit : Effect → Action (Unit {0})
emit e w = (ok tt, note e w)

-- A call of the API, with the entry of the history that it leaves.
unfoldable pub perform {ℓ} : {A : Type ℓ} → (History → Result A) → (Bool → Effect) → Action A
perform call entry w = let r = call w.history in (r, note (entry (accepted r)) w)

abbrev pub asking {ℓ} : {A : Type ℓ} → (History → Result A) → Action A
asking call = perform call (λ _. Effect.read)

-- The references of the created objects, and those of the deleted ones, the latest first.
abbrev pub created : History → List Ref
created [] = []
created (Effect.create o true ∷ h) = ref_of o ∷ created h
created (e ∷ h) = created h

abbrev pub deleted : History → List Ref
deleted [] = []
deleted (Effect.delete r a ∷ h) = r ∷ deleted h
deleted (e ∷ h) = deleted h

-- The pipeline runs that the API accepted, the latest first.
abbrev pub created_runs : History → List PipelineRun
created_runs [] = []
created_runs (Effect.create (Object.pipeline_run p) true ∷ h) = p ∷ created_runs h
created_runs (e ∷ h) = created_runs h

-- What the program takes from its platform: random bytes by draw and number, the time as
-- `MMDDhhmm`, the variables of the environment, JSON, and the owner references that
-- `SetOwnerReference` writes for a run.
pub record Platform : Type 0 where
  pub random_bytes : ℕ → ℕ → List ℕ
  pub timestamp : History → Str
  pub getenv : Str → Str
  pub sanitizer : Str
  pub unmarshal : Str → Result Fields
  pub marshal : Json → Result Str
  pub set_owner : PipelineRun → List Str → Result (List Str)
