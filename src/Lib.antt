-- ===== src/Lib.antt =====
-- MintMaker: a Kubernetes controller that schedules Renovate pipeline runs for components.
--
-- A DependencyUpdateCheck makes the reconciler of internal/controller gather components, find the
-- branches of each, and create one Tekton PipelineRun for each repository and branch, with a secret
-- and a config map beside it. The client of the API server, JSON, SHA-256, the random bytes and the
-- clock come from outside: they are parameters, fields of the records `Client` and `Platform`.
--
-- Base: strings as byte lists, Go maps as association lists, results with errors, list helpers.
-- Utils.Label, Utils.Names, Utils.GitUrl: internal/utils/sanitize.go, random.go and utils.go.
-- Tekton.Types, Tekton.Builder: internal/tekton/pipeline_run_builder.go. A method of the builder is a
--   function from builders to builders. Tekton.Builder.Steps has the fixed steps.
-- Cluster.Objects: the Kubernetes objects, with the fields that the controllers read or write, and
--   internal/constant/constants.go. Cluster.Client: the API. An action takes a world, which is the
--   history of effects, the count of random draws and the variable `resources` of createPipelineRun,
--   and returns a result and the next world. An answer of the API may depend on the whole history.
-- Cluster.Preserves: the rules by which a statement about an action follows from its parts.
-- Component.Interface, Component.Source: the interface GitComponent, GetGitURL and GetVersions of
--   internal/component/component.go.
-- Component.Secrets: GetRPMActivationKey of internal/component/base/base.go and lookupSecret of
--   internal/component/gitlab/gitlab.go and internal/component/forgejo/forgejo.go. The order in which
--   Go ranges over a map is a parameter, a function that permutes the entries. Component.Secrets.Grade
--   says of the label of a secret how well it serves a repository; Component.Secrets.Score has the score
--   that the code gives it.
-- Component.Tokens: TokenCache of internal/component/github/cache.go. Component.Cache: its
--   StaleAllowedCache, as interleaved steps of numbered goroutines; what follows a test of the flag up
--   to the unlock is one step, since the mutex is held.
-- Component.Git: GetBranches, getDefaultBranch, getClient, getOwnerAndRepo and GetAPIEndpoint of the
--   three platforms, with NewComponent of GitLab and Forgejo.
-- Component.Github: internal/component/github/github.go. The variables of the package are the record
--   GithubState; the loops over the pages of a listing have fuel, the number of calls that may be made,
--   and one call more than there are pages is enough. Component.Github.Access has GetToken.
-- Component.Renovate: GetHostRules and GetRenovateBaseConfig of internal/component/base/base.go and
--   GetRenovateConfig of the platforms. The variable renovateBaseConfig is a state, and the map that is
--   returned is the variable's own. Component.Factory: NewGitComponent. Component.Samples: example data.
-- Config: internal/config/config.go. Metrics: internal/metrics, where the two steps of CheckEvents are
--   apart.
-- Osv: tools/osv-generator/cve_parser.go; a panic is none. Osv.Types has the records, Osv.Download the
--   retries and Osv.Advisories tools/osv-generator/generator.go.
-- Controller.Filter: getFilteredComponents of internal/controller/common.go.
-- Controller.Docker, Controller.Create, Controller.Run: getMergedDockerConfigJson, getCAConfigMap and
--   createPipelineRun of internal/controller/dependencyupdatecheck_controller.go, with the deferred
--   deletion. Controller.Check: Reconcile and hasActivePipelineRun of the same file.
-- Controller.Event: Reconcile of internal/controller/event_controller.go; the deferred function reads
--   the record `Outcome`, which the body returns on every path.
--
-- Other loops are structural recursion on the lists that the source ranges over, so that no fuel is
-- needed; the retries of a download are recursion on the number of calls that are left.
-- Logging is left out. Metrics are effects of the history where the controllers count.
-- Not modelled: a renovate.json that is JSON null, writes of two calls at once on the shared Renovate
-- configuration, the ticker of the metrics, the files that the OSV tools read and write, and the OSV
-- downloader; and cmd, the generated code, the mocks and the registration of the controllers, which
-- call other libraries only.
pub mod Base
pub mod Config
pub mod Metrics
pub mod Osv
pub mod Utils
pub mod Tekton
pub mod Cluster
pub mod Component
pub mod Controller
