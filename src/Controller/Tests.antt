-- ===== src/Controller/Tests.antt =====
-- A small cluster for the examples of the controllers' theorems, and the examples.
use mintmaker.Base.{
  false, none, List, [], ◌∷◌, Str, codes, Result, ok, err, not_found, failure, ◌≡◌, refl, inl, inr,
  In,
}
use mintmaker.Tekton.Types.{PipelineRun, Condition, ConditionStatus}
use mintmaker.Cluster.Objects.{AppComponent, DependencyUpdateCheck, ApplicationSpec, Fields}
use mintmaker.Cluster.Client.{Client, Platform, World, Effect, note}
use mintmaker.Cluster.Preserves.{Ends}
use mintmaker.Component.Interface.{GitComponent}
use mintmaker.Controller.Create.{Reconciler}
use mintmaker.Controller.Run.{create_pipeline_run}
use mintmaker.Controller.Run.Cleanup.{LeavesNothing, create_pipeline_run-LeavesNothing}
use mintmaker.Controller.Check.{try_branch, reconcile, schedule_components}
use mintmaker.Controller.Check.Schedule.{Scheduled, schedule_components-distinct}
use mintmaker.Controller.Check.Once.{OneEach, reconcile-OneEach}
use mintmaker.Controller.Check.Guards.{try_branch_active}
use mintmaker.Controller.Filter.{select_components}
use mintmaker.Controller.Filter.Selected.{Asked, select_components-Asked}
use mintmaker.Controller.Filter.Complete.{HasUniqueName, Asked-select_components}

abbrev condition : ConditionStatus → Condition
condition status = record { type = codes "Succeeded"; status = status; reason = []; message = [] }

abbrev some_run : List Condition → PipelineRun
some_run conditions = record {
  name = codes "run";
  namespace = codes "mintmaker";
  labels = [];
  annotations = [];
  finalizers = [];
  pipeline_workspaces = [];
  workspaces = [];
  tasks = [];
  service_account_name = [];
  timeouts = none;
  params = [];
  spec_status = [];
  conditions = conditions;
}

abbrev active_run : PipelineRun
active_run = some_run (condition ConditionStatus.status_unknown ∷ [])

abbrev done_run : PipelineRun
done_run = some_run (condition ConditionStatus.status_true ∷ [])

abbrev application : Str → List Str → ApplicationSpec
application name components = record { application = name; components = components }

abbrev pub component : Str → Str → AppComponent
component name app = record {
  name = name;
  namespace = codes "team";
  annotations = [];
  application = app;
  git_source = none;
  git_url = codes "https://gitlab.com/org/repo";
  versions = codes "main" ∷ [];
}

abbrev pub new_check : DependencyUpdateCheck
new_check = record {
  name = codes "check";
  namespace = codes "mintmaker";
  annotations = [];
  namespaces = [];
}

-- Pipeline runs cannot be created, and one run is active; all else succeeds.
abbrev pub cluster :
    Result DependencyUpdateCheck → Result DependencyUpdateCheck → List PipelineRun → Client
cluster check updated runs = record {
  get_check = λ h ns n. check;
  get_component = λ h ns n. err not_found;
  get_event = λ h ns n. err not_found;
  get_pod = λ h ns n. err not_found;
  get_pipeline_run = λ h ns n. err not_found;
  get_secret = λ h ns n. err not_found;
  get_service_account = λ h ns n. err not_found;
  list_components =
      λ h ns. ok (component (codes "a") (codes "app") ∷ component (codes "b") (codes "app") ∷ []);
  list_config_maps = λ h ns k v. ok [];
  list_pipeline_runs = λ h ns k v. ok runs;
  list_secrets = λ h ns k v. ok [];
  create_secret = λ h s. ok s;
  create_config_map = λ h c. ok c;
  create_pipeline_run = λ h p. err (failure (codes "quota"));
  update_check = λ h c. updated;
  update_secret = λ h s. ok s;
  update_config_map = λ h c. ok c;
  patch_event = λ h e. ok e;
  patch_pipeline_run = λ h p. ok p;
  delete_object = λ h o. ok tt;
}

abbrev platform : Platform
platform = record {
  random_bytes = λ draw n. 1 ∷ 2 ∷ 3 ∷ 4 ∷ 5 ∷ [];
  timestamp = λ h. codes "01021504";
  getenv = λ name. [];
  sanitizer = [];
  unmarshal = λ text. ok Fields.end;
  marshal = λ json. ok [];
  set_owner = λ run owners. ok owners;
}

abbrev pub git_component : GitComponent
git_component = record {
  name = codes "a";
  namespace = codes "team";
  application = codes "app";
  platform = codes "gitlab";
  host = codes "gitlab.com";
  repository = codes "org/repo";
  get_token = λ h. ok (codes "token");
  get_branches = λ h. ok (codes "main" ∷ codes "main" ∷ []);
  get_renovate_config = λ h s branch. ok (codes "{}");
  get_rpm_activation_key = λ h. err (failure []);
}

abbrev reconciler : Client → Reconciler
reconciler client = record {
  client = client;
  platform = platform;
  sha256 = λ s. s;
  new_git_component = λ h c. ok git_component;
  kite_enabled = false;
  kite_api_url = [];
}

abbrev pub start : World
start = record { history = []; draws = 0; resources = [] }

abbrev busy : Reconciler
busy = reconciler (cluster (ok new_check) (ok new_check) (done_run ∷ active_run ∷ []))

abbrev idle : Reconciler
idle = reconciler (cluster (ok new_check) (ok new_check) (done_run ∷ []))

create_pipeline_run-LeavesNothing_example :
    let (result, w') =
      create_pipeline_run idle (codes "renovate-1") git_component (codes "main") [] start in
    LeavesNothing result [] w'.history
create_pipeline_run-LeavesNothing_example =
    create_pipeline_run-LeavesNothing idle (codes "renovate-1") git_component (codes "main") []
      start

schedule_components-distinct_example : Ends (Scheduled idle.sha256 []) (
    schedule_components idle
      (codes "01021504")
      []
      (component (codes "a") (codes "app") ∷ component (codes "b") (codes "app") ∷ [])
      []
      start)
schedule_components-distinct_example =
    schedule_components-distinct idle (codes "01021504") []
      (component (codes "a") (codes "app") ∷ component (codes "b") (codes "app") ∷ []) start

reconcile-OneEach_example :
    OneEach idle.sha256 [] (reconcile idle (codes "mintmaker") (codes "check") start).1
reconcile-OneEach_example = reconcile-OneEach idle (codes "mintmaker") (codes "check") start

try_branch_active_example :
    try_branch busy (codes "01021504") [] git_component (codes "main") start
    ≡ (ok tt, note Effect.read start)
try_branch_active_example =
    try_branch_active busy (codes "01021504") [] git_component (codes "main") start
      (done_run ∷ active_run ∷ []) active_run refl (inr (inl refl)) (inl (refl, refl))

abbrev items : List AppComponent
items = component (codes "a") (codes "app") ∷ component (codes "b") (codes "app") ∷ []

abbrev only_b : List ApplicationSpec
only_b = application (codes "app") (codes "b" ∷ []) ∷ []

only_b_unique : HasUniqueName (component (codes "b") (codes "app")) items
only_b_unique d (inl e) same = cc
only_b_unique d (inr (inl e)) same = cc
only_b_unique d (inr (inr k)) same = absurd k

Asked-select_components_example :
    In (component (codes "b") (codes "app")) (select_components only_b items)
Asked-select_components_example =
    Asked-select_components only_b items (component (codes "b") (codes "app")) only_b_unique
      (inl (refl, inr (inl refl))) (inr (inl refl))

select_components-Asked_example :
    Asked only_b (component (codes "b") (codes "app"))
    × In (component (codes "b") (codes "app")) items
select_components-Asked_example =
    select_components-Asked only_b items (component (codes "b") (codes "app")) (cc)
      Asked-select_components_example
