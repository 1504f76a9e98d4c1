-- ===== src/Tekton/Builder/Steps.antt =====
-- internal/tekton/pipeline_run_builder.go: the task that `NewPipelineRunBuilder` writes out, and
-- the step that `WithKiteIntegration` adds. The image names are those of internal/constant.
use mintmaker.Base.{
  ℕ, true, false, Option, none, some, List, [], ◌∷◌, ◌++◌, Str, codes, is_empty, if◌then◌else◌,
}
use mintmaker.Tekton.Types.{Step, Task, SecurityContext, Quantities, EnvVar, EnvSource}

abbrev pub normal_user : ℕ
normal_user = 1001120000

abbrev pub root_user : ℕ
root_user = 0

-- Dropped capabilities, no root and no privilege escalation.
abbrev pub restricted : SecurityContext
restricted = record {
  drop = codes "ALL" ∷ [];
  run_as_non_root = some true;
  run_as_user = normal_user;
  allow_privilege_escalation = some false;
}

abbrev pub as_root : SecurityContext
as_root = record {
  drop = codes "ALL" ∷ [];
  run_as_non_root = none;
  run_as_user = root_user;
  allow_privilege_escalation = some false;
}

abbrev quantities : Str → Str → Option Quantities
quantities cpu memory = some (record { cpu = cpu; memory = memory })

abbrev literal : Str → Str → EnvVar
literal name v = record { name = name; source = EnvSource.value v }

abbrev from_field : Str → Str → EnvVar
from_field name path = record { name = name; source = EnvSource.field_ref path }

unfoldable pub image_url : (Str → Str) → Str
image_url env =
    let chosen = env (codes "RENOVATE_IMAGE") in
    if is_empty chosen then codes "quay.io/konflux-ci/mintmaker-renovate-image:latest" else chosen

unfoldable pub sanitizer_url : (Str → Str) → Str
sanitizer_url env =
    let chosen = env (codes "LEAKTK_IMAGE") in
    if is_empty chosen then codes "quay.io/leaktk/leaktk:latest" else chosen

unfoldable pub prepare_db_script : Str
prepare_db_script =
    codes
      "echo 'Copying OSV database to the shared workspace'; cp -r /data/osv-db /workspace/shared-data"

abbrev pub prepare_db_step : Step
prepare_db_step = record {
  name = codes "prepare-db";
  image = codes "quay.io/konflux-ci/mintmaker-osv-database:latest";
  script = prepare_db_script;
  env = [];
  security_context = restricted;
  requests = quantities (codes "100m") (codes "512Mi");
  limits = quantities (codes "100m") (codes "512Mi");
  volume_mounts = [];
}

unfoldable pub prepare_rpm_cert_script : Str
prepare_rpm_cert_script =
    codes
      "[ ! -f \"/etc/renovate/secret/rpm-activationkey\" ] && echo 'RPM secret not found. Exiting.' && exit 0;"
    ++ (codes "echo 'Generating RPM certificate and copying it to shared workspace';"
        ++ (codes "KEY_NAME=$(cat /etc/renovate/secret/rpm-activationkey);"
            ++ (codes "ORG_ID=$(cat /etc/renovate/secret/rpm-org);"
                ++ (codes
                      "subscription-manager register --activationkey=\"$KEY_NAME\" --org=\"$ORG_ID\";"
                    ++ (codes "mkdir -p /workspace/shared-data/rpm-certs;"
                        ++ (codes
                              "cp /etc/pki/entitlement/*-key.pem /workspace/shared-data/rpm-certs/key.pem;"
                            ++ codes
                                "cp $(find /etc/pki/entitlement -maxdepth 1 -type f -name '*.pem' ! -name '*-key.pem' -print -quit) /workspace/shared-data/rpm-certs/cert.pem"))))))

abbrev pub prepare_rpm_cert_step : Step
prepare_rpm_cert_step = record {
  name = codes "prepare-rpm-cert";
  image = codes "registry.access.redhat.com/ubi9";
  script = prepare_rpm_cert_script;
  env = [];
  security_context = as_root;
  requests = quantities (codes "100m") (codes "256Mi");
  limits = quantities (codes "100m") (codes "256Mi");
  volume_mounts = [];
}

unfoldable pub renovate_script : Str
renovate_script =
    codes "RENOVATE_TOKEN=$(cat /etc/renovate/secret/renovate-token) "
    ++ (codes "RENOVATE_CONFIG_FILE=/etc/renovate/config/config.js "
        ++ (codes "LOG_FILE=/workspace/shared-data/renovate-logs.json "
            ++ codes "renovate || true"))

unfoldable pub renovate_env : List EnvVar
renovate_env =
    literal (codes "HOME") (codes "/home/renovate")
    ∷ literal (codes "LOG_LEVEL") (codes "debug")
    ∷ literal (codes "LOG_FORMAT") (codes "json")
    ∷ literal (codes "OSV_OFFLINE_DISABLE_DOWNLOAD") (codes "true")
    ∷ literal (codes "OSV_OFFLINE_ROOT_DIR") (codes "/workspace/shared-data/osv-db")
    ∷ literal (codes "DNF_VAR_SSL_CLIENT_KEY") (codes "/workspace/shared-data/rpm-certs/key.pem")
    ∷ literal (codes "DNF_VAR_SSL_CLIENT_CERT") (codes "/workspace/shared-data/rpm-certs/cert.pem")
    ∷ literal (codes "RENOVATE_X_GITLAB_AUTO_MERGEABLE_CHECK_ATTEMPS") (codes "7")
    ∷ []

abbrev pub renovate_step : Str → Step
renovate_step image = record {
  name = codes "renovate";
  image = image;
  script = renovate_script;
  env = renovate_env;
  security_context = restricted;
  requests = quantities (codes "300m") (codes "3.5Gi");
  limits = quantities (codes "300m") (codes "3.5Gi");
  volume_mounts = [];
}

abbrev pub log_sanitizer_step : Str → Str → Step
log_sanitizer_step image script = record {
  name = codes "log-sanitizer";
  image = image;
  script = script;
  env = literal (codes "HOME") (codes "/tmp") ∷ [];
  security_context = restricted;
  requests = quantities (codes "100m") (codes "256Mi");
  limits = quantities (codes "100m") (codes "256Mi");
  volume_mounts = [];
}

-- The steps of the task `build`, in their order.
unfoldable pub base_steps : Str → Str → Str → List Step
base_steps renovate_image sanitizer_image sanitizer =
    prepare_db_step
    ∷ prepare_rpm_cert_step
    ∷ renovate_step renovate_image
    ∷ log_sanitizer_step sanitizer_image sanitizer
    ∷ []

abbrev pub build_task : List Step → Task
build_task steps = record {
  name = codes "build";
  workspaces = (codes "shared-data", codes "shared-data") ∷ [];
  task_spec = some (record { workspaces = codes "shared-data" ∷ []; steps = steps; volumes = [] });
}

unfoldable pub log_analyzer_env : Str → List EnvVar
log_analyzer_env api_url =
    from_field (codes "POD_NAME") (codes "metadata.name")
    ∷ from_field (codes "NAMESPACE")
        (codes "metadata.labels['mintmaker.appstudio.redhat.com/namespace']")
    ∷ from_field (codes "GIT_HOST")
        (codes "metadata.labels['mintmaker.appstudio.redhat.com/git-host']")
    ∷ from_field (codes "REPOSITORY")
        (codes "metadata.labels['mintmaker.appstudio.redhat.com/repository']")
    ∷ from_field (codes "BRANCH") (codes "metadata.labels['mintmaker.appstudio.redhat.com/branch']")
    ∷ from_field (codes "PIPELINE_RUN") (codes "metadata.labels['tekton.dev/pipelineRun']")
    ∷ literal (codes "SSL_CERT_FILE") (codes "/etc/pki/kite-ca/ca.crt")
    ∷ literal (codes "KITE_API_URL") api_url
    ∷ literal (codes "LOG_FILE") (codes "/workspace/shared-data/renovate-logs.json")
    ∷ literal (codes "KITE_AUTH_TOKEN_FILE") (codes "/var/run/secrets/kite/token")
    ∷ []

abbrev pub log_analyzer_step : Str → Step
log_analyzer_step api_url = record {
  name = codes "log-analyzer";
  image = codes "quay.io/konflux-ci/renovate-log-analyzer:latest";
  script = [];
  env = log_analyzer_env api_url;
  security_context = restricted;
  requests = none;
  limits = none;
  volume_mounts = [];
}
