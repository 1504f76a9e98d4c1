-- ===== src/Component/Github/Access.antt =====
-- internal/component/github/github.go: `getInstallationID`, `GetToken`, `getClient`, the branches,
-- `getAppSlug`, `getUserId` and `NewComponent`.
use mintmaker.Base.{
  ℕ, ◌+◌, Bool, true, false, Option, none, some, List, [], ◌∷◌, ◌++◌, Str, codes, str_eq,
  trim_prefix, trim_suffix, Result, ok, err, failure, if◌then◌else◌, ◌==◌, ◌>>=◌,
}
use mintmaker.Cluster.Objects.{AppComponent, Secret}
use mintmaker.Utils.GitUrl.{Url}
use mintmaker.Component.Secrets.{wrap}
use mintmaker.Component.Tokens.{TokenInfo, get_cached, set_token}
use mintmaker.Component.Git.{
  BaseComponent, new_base_component, wrapped, get_branches, github_owner_and_repo,
}
use mintmaker.Component.Github.{
  AppInstallation, GithubState, GithubApi, get_app_id_and_key, app_client,
}

pub record GithubComponent : Type 0 where
  pub base : BaseComponent
  pub app : ℕ
  pub key : Option Str

-- `NewComponent`
unfoldable pub new_component :
    GithubApi
    → (Str → Result Url)
    → Result Secret
    → AppComponent
    → Str
    → List Str
    → Bool
    → GithubState
    → Result GithubComponent × GithubState
new_component api parse secret comp url versions old st =
    let got = get_app_id_and_key api secret st in
    (
      (do
        app ← wrapped (codes "failed to get GitHub APP ID and private key: ") got.0
        base ← new_base_component parse comp url versions old
        ok (record { base = base; app = app.0; key = app.1 })),
      got.1,
    )

unfoldable pub names_repository : Str → List Str → Bool
names_repository repository [] = false
names_repository repository (name ∷ names) =
    if str_eq (trim_suffix (trim_prefix b'/' name) (codes "/")) repository
    then true
    else names_repository repository names

unfoldable pub installation_of : Str → List AppInstallation → Option ℕ
installation_of repository [] = none
installation_of repository (i ∷ installations) =
    let later = installation_of repository installations in
    if names_repository repository i.repositories then some i.installation_id else later

-- `getInstallationID`, with the answer of the cache of installations
unfoldable pub get_installation_id : Option (List AppInstallation) → Str → Result ℕ
get_installation_id none repository = err (failure (codes "failed to get GitHub app installations"))
get_installation_id (some installations) repository =
    elim (installation_of repository installations) [
      | some id ↦ ok id
      | none ↦ err (
          failure (
            codes "repository "
            ++ (repository ++ codes " not found in any GitHub App installation")))
    ]

-- The times at which a call looks into the cache and at which it has got a token, and the
-- configured durations
pub record Moment : Type 0 where
  pub checked : ℕ
  pub fetched : ℕ
  pub min_validity : ℕ
  pub token_ttl : ℕ

unfoldable pub installation_key : GithubApi → ℕ → Str
installation_key api id = codes "installation_" ++ api.format_int id

unfoldable pub keep_token :
    GithubApi → Moment → ℕ → Result Str → GithubState → Result Str × GithubState
keep_token api t id (err e) st = (err e, st)
keep_token api t id (ok token) st =
    let info : TokenInfo = record { token = token; expires_at = t.fetched + t.token_ttl } in
    (ok token, record st { tokens = set_token (installation_key api id) info st.tokens })

unfoldable pub fetch_token : GithubApi → GithubComponent → ℕ → Result Str
fetch_token api c id = do
  transport ←
      wrapped (codes "error creating installation transport: ")
        (api.installation_transport c.app id c.key)
  wrapped (codes "error getting installation token: ") (api.new_token c.app id c.key)

unfoldable pub token_for :
    GithubApi
    → Moment
    → GithubComponent
    → ℕ
    → Option TokenInfo
    → GithubState
    → Result Str × GithubState
token_for api t c id (some info) st = (ok info.token, st)
token_for api t c id none st = keep_token api t id (fetch_token api c id) st

-- `GetToken`
unfoldable pub github_token :
    GithubApi
    → Moment
    → Option (List AppInstallation)
    → GithubComponent
    → GithubState
    → Result Str × GithubState
github_token api t installations c st = elim (get_installation_id installations c.base.repository) [
  | err e ↦ (err (wrap (codes "failed to get installation ID: ") e), st)
  | ok id ↦
      token_for api t c id (get_cached t.checked t.min_validity (installation_key api id) st.tokens)
        st
]

-- `getClient`, with the result of `GetToken`
unfoldable pub github_client : GithubApi → Result Str → Result (Unit {0})
github_client api token = do
  t ← wrapped (codes "failed to get GitHub token: ") token
  wrapped (codes "failed to create GitHub client: ") api.new_client

unfoldable pub default_named : Option Str → Result Str
default_named none = err (failure (codes "repository default branch is nil"))
default_named (some branch) = ok branch

-- `getDefaultBranch`
unfoldable pub github_default_branch : GithubApi → GithubComponent → Result Str → Result Str
github_default_branch api c token = do
  client ← wrapped (codes "failed to get GitHub client: ") (github_client api token)
  parts ←
      wrapped (codes "failed to get owner and repository: ")
        (github_owner_and_repo c.base.repository)
  branch ←
      wrapped (codes "failed to get repository information: ") (api.default_branch parts.0 parts.1)
  default_named branch

unfoldable pub branch_test : GithubApi → GithubComponent → Result Str → Result (Str → Bool)
branch_test api c token = do
  client ← wrapped (codes "GetBranches: failed to get GitHub client: ") (github_client api token)
  parts ←
      wrapped (codes "GetBranches: failed to get owner and repository: ")
        (github_owner_and_repo c.base.repository)
  ok (api.has_branch parts.0 parts.1)

-- `GetBranches`; either way the token is got once.
unfoldable pub github_branches :
    GithubApi
    → Moment
    → Option (List AppInstallation)
    → GithubComponent
    → GithubState
    → Result (List Str) × GithubState
github_branches api t installations c st =
    let got = github_token api t installations c st in
    (get_branches c.base (github_default_branch api c got.0) (branch_test api c got.0), got.1)

unfoldable pub keep_slug :
    GithubApi → Result (ℕ × Option Str) → GithubState → Result Str × GithubState
keep_slug api (err e) st = (err e, st)
keep_slug api (ok (app, key)) st = elim (app_client api app key) [
  | err e ↦ (err e, st)
  | ok slug ↦ (ok slug, record st { app_slug = slug })
]

-- `getAppSlug`
unfoldable pub get_app_slug : GithubApi → Result Secret → GithubState → Result Str × GithubState
get_app_slug api secret st = elim st.app_slug [
  | c ∷ slug ↦ (ok st.app_slug, st)
  | [] ↦ let got = get_app_id_and_key api secret st in keep_slug api got.0 got.1
]

unfoldable pub keep_user : Result ℕ → GithubState → Result ℕ × GithubState
keep_user (err e) st = (err e, st)
keep_user (ok id) st = (ok id, record st { user_id = id })

unfoldable pub fetch_user : GithubApi → Str → Result ℕ
fetch_user api username = do
  client ← wrapped (codes "failed to create GitHub client: ") api.new_client
  wrapped (codes "failed to get user information: ") (api.get_user username)

-- `getUserId`
unfoldable pub get_user_id : GithubApi → Str → GithubState → Result ℕ × GithubState
get_user_id api username st =
    if st.user_id == 0 then keep_user (fetch_user api username) st else (ok st.user_id, st)
