-- ===== src/Controller/Event/Tests.antt =====
-- An event of a pod without its token, for the examples of the reconciler of events, and the examples.
use mintmaker.Base.{some, [], ◌∷◌, codes, ok, ◌≡◌, refl, All, false, has_prefix, cut, contains_str}
use mintmaker.Cluster.Objects.{Secret, Pod, Event}
use mintmaker.Cluster.Client.{Client}
use mintmaker.Controller.Tests.{cluster, component, git_component, new_check, start}
use mintmaker.Controller.Event.{
  EventReconciler, accepts_created, mark_event, find_volume, quoted_volume, drop_volume, before,
  reconcile_event,
}
use mintmaker.Controller.Event.Effects.{IsPermitted, reconcile_event-IsPermitted}
use mintmaker.Controller.Event.Marks.{
  IsMarked, reconcile_event-IsMarked, accepts_created-mark_event,
}

abbrev mount_failure : Event
mount_failure = record {
  name = codes "failed";
  namespace = codes "mintmaker";
  annotations = [];
  reason = codes "FailedMount";
  message =
      codes
        "MountVolume.SetUp failed for volume \"secret-renovate\" : references non-existent secret key: renovate-token";
  involved_kind = codes "Pod";
  involved_name = codes "pod";
  involved_namespace = codes "mintmaker";
}

find_volume_test : find_volume mount_failure.message ≡ some (codes "secret-renovate")
unfolding find_volume has_prefix quoted_volume cut drop_volume contains_str before
find_volume_test = refl

abbrev waiting_pod : Pod
waiting_pod = record {
  name = codes "pod";
  namespace = codes "mintmaker";
  labels = (codes "tekton.dev/pipelineRun", codes "run") ∷ [];
  volumes = record { name = codes "secret-renovate"; secret_name = some (codes "renovate") } ∷ [];
}

abbrev empty_secret : Secret
empty_secret = record {
  name = codes "renovate";
  namespace = codes "mintmaker";
  type = codes "Opaque";
  labels = [];
  annotations = [];
  values = [];
  string_values = [];
  owners = [];
}

abbrev event_client : Client
event_client = record (cluster (ok new_check) (ok new_check) []) {
  get_event = λ h namespace name. ok mount_failure;
  get_pod = λ h namespace name. ok waiting_pod;
  get_secret = λ h namespace name. ok empty_secret;
  get_component = λ h namespace name. ok (component (codes "a") (codes "app"));
}

abbrev event_reconciler : EventReconciler
event_reconciler = record {
  client = event_client;
  new_git_component = λ h c. ok git_component;
  error_text = λ e. codes "error";
  cancelled = λ message run. record run { spec_status = codes "Cancelled" };
}

reconcile_event-IsPermitted_example :
    All
      (IsPermitted event_reconciler)
      (reconcile_event event_reconciler (codes "mintmaker") (codes "failed") start).1.history
reconcile_event-IsPermitted_example =
    reconcile_event-IsPermitted event_reconciler (codes "mintmaker") (codes "failed") start tt

reconcile_event-IsMarked_example :
    IsMarked event_reconciler mount_failure
      (reconcile_event event_reconciler (codes "mintmaker") (codes "failed") start).1
reconcile_event-IsMarked_example =
    reconcile_event-IsMarked event_reconciler mount_failure (codes "mintmaker") (codes "failed")
      start refl refl

accepts_created-mark_event_example : accepts_created (mark_event mount_failure) ≡ false
accepts_created-mark_event_example = accepts_created-mark_event mount_failure
