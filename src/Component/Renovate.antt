-- ===== src/Component/Renovate.antt =====
-- internal/component: `GetHostRules` and `GetRenovateBaseConfig` of base/base.go and
-- `GetRenovateConfig` of the three platforms. The JSON and base64 libraries come from outside; JSON
-- texts are objects, not null. A map is the list of its entries in the order in which Go ranges over
-- them.
mod Written
mod History
mod Leak
mod Tests
use mintmaker.Base.{
  ℕ, Bool, true, false, Option, none, some, List, [], ◌∷◌, ◌++◌, Str, codes, cut, lookup, insert,
  insert_all, Dict, Result, ok, err, Error, failure, if◌then◌else◌, ◌>>=◌,
}
use mintmaker.Cluster.Objects.{Secret}
use mintmaker.Utils.GitUrl.{Url}
use mintmaker.Component.Secrets.{wrap}
use mintmaker.Component.Git.{
  BaseComponent, wrapped, gitlab_endpoint, forgejo_endpoint, github_endpoint,
}
use mintmaker.Component.Github.{GithubState, GithubApi}
use mintmaker.Component.Github.Access.{GithubComponent, get_app_slug, get_user_id}

-- `HostRule`
abbrev pub HostRule : Type 0
HostRule = Dict Str

-- The values of a `map[string]interface{}`: what was parsed, kept as its JSON text, and what
-- `GetRenovateConfig` stores.
pub data Value : Type 0 where
  parsed : Str → Value
  text : Str → Value
  host_rules : List HostRule → Value
  repositories : Str → Str → Value

pub record RenovateApi : Type 0 where
  pub unmarshal_auths : Str → Result (Dict (Dict HostRule))
  pub decode_base64 : Str → Result Str
  pub unmarshal : Str → Result (Dict Value)
  pub marshal : Dict Value → Result Str

unfoldable pub auth_rule : Str → Option (Str × Str) → Result HostRule
auth_rule registry none = err (failure (codes "could not find delimiter in auth"))
auth_rule registry (some (username, password)) = ok (
    insert (codes "hostType") (codes "docker") (
      insert (codes "password") password
        (insert (codes "username") username (insert (codes "matchHost") registry []))))

unfoldable pub decoded_rule : Str → Result Str → Result HostRule
decoded_rule registry (err e) = err e
decoded_rule registry (ok plain) = auth_rule registry (cut b':' plain)

-- The body of the loop over the registries
unfoldable pub host_rule : RenovateApi → Str → Option Str → Result HostRule
host_rule api registry none = ok (insert (codes "matchHost") registry [])
host_rule api registry (some auth) = decoded_rule registry (api.decode_base64 auth)

unfoldable pub rules_for : RenovateApi → Dict HostRule → Result (List HostRule)
rules_for api [] = ok []
rules_for api ((registry, credentials) ∷ auths) = do
  rule ← host_rule api registry (lookup (codes "auth") credentials)
  rules ← rules_for api auths
  ok (rule ∷ rules)

unfoldable pub auths_in : Option (Dict HostRule) → Dict HostRule
auths_in none = []
auths_in (some auths) = auths

unfoldable pub rules_of : RenovateApi → Secret → Option Str → Result (List HostRule)
rules_of api secret none =
    err
      (failure (codes "secret " ++ (secret.name ++ codes " is missing the .dockerconfigjson key")))
rules_of api secret (some json) = do
  secrets ← api.unmarshal_auths json
  rules_for api (auths_in (lookup (codes "auths") secrets))

-- `GetHostRules`
unfoldable pub get_host_rules : RenovateApi → Secret → Result (List HostRule)
get_host_rules api secret = rules_of api secret (lookup (codes ".dockerconfigjson") secret.values)

unfoldable pub text_of : Option Str → Str
text_of none = []
text_of (some s) = s

unfoldable pub read_base : RenovateApi → Dict Str → Result (Dict Value)
read_base api values = do
  config ←
      wrapped (codes "error unmarshaling Renovate config: ")
        (api.unmarshal (text_of (lookup (codes "renovate.json") values)))
  self_hosted ←
      wrapped (codes "error unmarshaling Renovate self-hosted config: ")
        (api.unmarshal (text_of (lookup (codes "self_hosted.json") values)))
  ok (insert_all self_hosted config)

unfoldable pub keep_base : Result (Dict Value) → Result (Dict Value) × Option (Dict Value)
keep_base (err e) = (err e, none)
keep_base (ok config) = (ok config, some config)

unfoldable pub read_config_map : RenovateApi → Result (Dict Str) → Result (Dict Value)
read_config_map api (err e) = err e
read_config_map api (ok values) = read_base api values

-- `GetRenovateBaseConfig`, with the variable `renovateBaseConfig` and the answer to the read of the
-- configuration map. The map that it returns is the variable's own.
unfoldable pub get_renovate_base_config :
    RenovateApi
    → Result (Dict Str)
    → Option (Dict Value)
    → Result (Dict Value) × Option (Dict Value)
get_renovate_base_config api config_map (some config) = (ok config, some config)
get_renovate_base_config api config_map none = keep_base (read_config_map api config_map)

unfoldable pub add_rules : Result (List HostRule) → Dict Value → Dict Value
add_rules (err e) config = config
add_rules (ok []) config = config
add_rules (ok (r ∷ rules)) config = insert (codes "hostRules") (Value.host_rules (r ∷ rules)) config

unfoldable pub with_host_rules : RenovateApi → Option Secret → Dict Value → Dict Value
with_host_rules api none config = config
with_host_rules api (some secret) config = add_rules (get_host_rules api secret) config

-- What GitLab and Forgejo store, with their endpoint
unfoldable pub token_settings : BaseComponent → Str → Str → Dict Value
token_settings c endpoint branch =
    (codes "platform", Value.text c.platform)
    ∷ (codes "endpoint", Value.text endpoint)
    ∷ (codes "username", Value.text [])
    ∷ (codes "gitAuthor", Value.text [])
    ∷ (codes "repositories", Value.repositories branch c.repository)
    ∷ []

-- The map's entries are written in place, so that the variable has them too.
unfoldable pub configure :
    RenovateApi
    → Option Secret
    → Dict Value
    → Result (Dict Value) × Option (Dict Value)
    → Result Str × Option (Dict Value)
configure api secret settings (err e, shared) = (err e, shared)
configure api secret settings (ok config, shared) =
    let written = insert_all settings (with_host_rules api secret config) in
    (
      wrapped (codes "error marshaling updated Renovate config: ") (api.marshal written),
      some written,
    )

-- `GetRenovateConfig` of GitLab and of Forgejo
unfoldable pub gitlab_config :
    RenovateApi
    → Result (Dict Str)
    → BaseComponent
    → Option Secret
    → Str
    → Option (Dict Value)
    → Result Str × Option (Dict Value)
gitlab_config api config_map c secret branch shared =
    configure api secret (token_settings c (gitlab_endpoint c) branch)
      (get_renovate_base_config api config_map shared)

unfoldable pub forgejo_config :
    RenovateApi
    → (Str → Result Url)
    → Result (Dict Str)
    → BaseComponent
    → Option Secret
    → Str
    → Option (Dict Value)
    → Result Str × Option (Dict Value)
forgejo_config api parse config_map c secret branch shared =
    configure api secret (token_settings c (forgejo_endpoint parse c) branch)
      (get_renovate_base_config api config_map shared)

-- What GitHub stores: the author and the user are the application's bot.
unfoldable pub app_settings : GithubApi → BaseComponent → Str → ℕ → Str → Dict Value
app_settings github c slug bot branch =
    let address = codes "+" ++ (slug ++ codes "[bot]@users.noreply.github.com>") in
    (codes "gitAuthor", Value.text (slug ++ (codes " <" ++ (github.format_int bot ++ address))))
    ∷ (codes "username", Value.text (slug ++ codes "[bot]"))
    ∷ (codes "platform", Value.text c.platform)
    ∷ (codes "endpoint", Value.text (github_endpoint c))
    ∷ (codes "repositories", Value.repositories branch c.repository)
    ∷ []

unfoldable pub named_bot : Str → Result ℕ × GithubState → Result (Str × ℕ) × GithubState
named_bot slug (err e, st) = (err e, st)
named_bot slug (ok id, st) = (ok (slug, id), st)

unfoldable pub bot_of : GithubApi → Result Str × GithubState → Result (Str × ℕ) × GithubState
bot_of github (err e, st) = (err e, st)
bot_of github (ok slug, st) = named_bot slug (get_user_id github (slug ++ codes "[bot]") st)

-- The application's bot: its slug and its number
unfoldable pub get_bot : GithubApi → Result Secret → GithubState → Result (Str × ℕ) × GithubState
get_bot github app_secret st = bot_of github (get_app_slug github app_secret st)

-- The end of `GetRenovateConfig` of GitHub: without the bot, only the host rules are written.
unfoldable pub write_app :
    RenovateApi
    → GithubApi
    → BaseComponent
    → Str
    → Dict Value
    → Result (Str × ℕ)
    → Result Str × Option (Dict Value)
write_app api github c branch config (err e) = (err e, some config)
write_app api github c branch config (ok (slug, bot)) =
    let written = insert_all (app_settings github c slug bot branch) config in
    (api.marshal written, some written)

unfoldable pub configure_app :
    RenovateApi
    → GithubApi
    → Result Secret
    → BaseComponent
    → Option Secret
    → Str
    → GithubState
    → Result (Dict Value) × Option (Dict Value)
    → Result Str × Option (Dict Value) × GithubState
configure_app api github app_secret c secret branch st (err e, shared) = (err e, shared, st)
configure_app api github app_secret c secret branch st (ok config, shared) =
    let bot = get_bot github app_secret st in
    let written = write_app api github c branch (with_host_rules api secret config) bot.0 in
    (written.0, written.1, bot.1)

-- `GetRenovateConfig` of GitHub
unfoldable pub github_config :
    RenovateApi
    → GithubApi
    → Result (Dict Str)
    → Result Secret
    → GithubComponent
    → Option Secret
    → Str
    → GithubState
    → Option (Dict Value)
    → Result Str × Option (Dict Value) × GithubState
github_config api github config_map app_secret c secret branch st shared =
    configure_app api github app_secret c.base secret branch st
      (get_renovate_base_config api config_map shared)
