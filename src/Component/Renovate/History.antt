-- ===== src/Component/Renovate/History.antt =====
-- internal/component: `GetRenovateConfig` for one component after another, on the shared map.
use mintmaker.Base.{
  ℕ, Option, some, List, ◌∷◌, Str, codes, lookup, insert_all, Dict, Result, ok, err, ◌≡◌, refl, ap,
  ◌∙◌, subst,
}
use mintmaker.Cluster.Objects.{Secret}
use mintmaker.Utils.GitUrl.{Url}
use mintmaker.Component.Git.{BaseComponent, wrapped, gitlab_endpoint, forgejo_endpoint}
use mintmaker.Component.Github.{GithubState, GithubApi}
use mintmaker.Component.Github.Access.{GithubComponent}
use mintmaker.Component.Renovate.{
  HostRule, Value, RenovateApi, get_host_rules, get_renovate_base_config, with_host_rules,
  token_settings, configure, gitlab_config, forgejo_config, app_settings, get_bot, write_app,
  configure_app, github_config,
}
use mintmaker.Component.Renovate.Written.{
  IsUnmanaged, IsComplete, Agree, token_settings-IsComplete, app_settings-IsComplete,
  written_unmanaged, with_host_rules_unmanaged, written-Agree,
}

-- The map that the variable holds, after configurations of any components were made from a first one.
pub data Renders (api : RenovateApi) (first : Dict Value) : Dict Value → Type 0 where
  start : Renders api first first
  gitlab :
      {a b : Dict Value}
      → Renders api first a
      → (config_map : Result (Dict Str)) (c : BaseComponent) (secret : Option Secret) (branch : Str)
      → (gitlab_config api config_map c secret branch (some a)).1 ≡ some b
      → Renders api first b
  forgejo :
      {a b : Dict Value}
      → Renders api first a
      → (parse : Str → Result Url) (config_map : Result (Dict Str)) (c : BaseComponent)
        (secret : Option Secret) (branch : Str)
      → (forgejo_config api parse config_map c secret branch (some a)).1 ≡ some b
      → Renders api first b
  github :
      {a b : Dict Value}
      → Renders api first a
      → (app : GithubApi) (config_map : Result (Dict Str)) (app_secret : Result Secret)
        (c : GithubComponent) (secret : Option Secret) (branch : Str) (st : GithubState)
      → (github_config api app config_map app_secret c secret branch st (some a)).1 ≡ some b
      → Renders api first b

same_map : {a b : Dict Value} → some a ≡ some b → a ≡ b
same_map h = cc

module _ (api : RenovateApi) where
  write_app_unmanaged :
      (app : GithubApi) (c : BaseComponent) (branch : Str) (secret : Option Secret)
      (bot : Result (Str × ℕ)) (a b : Dict Value) (j : Str)
      → (write_app api app c branch (with_host_rules api secret a) bot).1 ≡ some b
      → IsUnmanaged j
      → Agree j b a
  unfolding write_app
  write_app_unmanaged app c branch secret (err e) a b j h free =
      subst (λ (m : Dict Value). Agree j m a) (same_map h)
        (with_host_rules_unmanaged api secret a j free.0)
  write_app_unmanaged app c branch secret (ok (slug, bot)) a b j h free =
      subst (λ (m : Dict Value). Agree j m a) (same_map h)
        (written_unmanaged api (app_settings app c slug bot branch) secret a j
          (app_settings-IsComplete app c slug bot branch) free)

  -- No component changes the other entries.
  Renders-unmanaged :
      {first b : Dict Value} → Renders api first b → (j : Str) → IsUnmanaged j → Agree j b first
  unfolding gitlab_config forgejo_config github_config configure configure_app
      get_renovate_base_config
  Renders-unmanaged Renders.start j free = refl
  Renders-unmanaged {first} {b} (Renders.gitlab {a} before config_map c secret branch h) j free =
      subst (λ (m : Dict Value). Agree j m a) (same_map h)
        (written_unmanaged api (token_settings c (gitlab_endpoint c) branch) secret a j
          (token_settings-IsComplete c (gitlab_endpoint c) branch) free)
      ∙ Renders-unmanaged before j free
  Renders-unmanaged {first} {b} (Renders.forgejo {a} before parse config_map c secret branch h) j
        free =
      subst (λ (m : Dict Value). Agree j m a) (same_map h)
        (written_unmanaged api (token_settings c (forgejo_endpoint parse c) branch) secret a j
          (token_settings-IsComplete c (forgejo_endpoint parse c) branch) free)
      ∙ Renders-unmanaged before j free
  Renders-unmanaged {first} {b}
        (Renders.github {a} before app config_map app_secret c secret branch st h) j free =
      write_app_unmanaged app c.base branch secret (get_bot app app_secret st).0 a b j h free
      ∙ Renders-unmanaged before j free

-- `json.Marshal` sorts the keys of a map.
abbrev pub MarshalsByKeys : RenovateApi → Type 0
MarshalsByKeys api =
    (a b : Dict Value) → ((j : Str) → lookup j a ≡ lookup j b) → api.marshal a ≡ api.marshal b

module _ (api : RenovateApi) (by_keys : MarshalsByKeys api) (secret : Secret) (r : HostRule)
    (rules : List HostRule) (own : get_host_rules api secret ≡ ok (r ∷ rules)) (a b : Dict Value)
    (same : (j : Str) → IsUnmanaged j → Agree j a b) where
  marshal-Agree :
      (settings : Dict Value)
      → IsComplete settings
      → api.marshal (insert_all settings (with_host_rules api (some secret) a))
        ≡ api.marshal (insert_all settings (with_host_rules api (some secret) b))
  marshal-Agree settings complete =
      by_keys _ _ (written-Agree api settings secret r rules a b complete own same)

  write_app_agree :
      (app : GithubApi) (c : BaseComponent) (branch : Str) (bot : Result (Str × ℕ))
      → (write_app api app c branch (with_host_rules api (some secret) a) bot).0
        ≡ (write_app api app c branch (with_host_rules api (some secret) b) bot).0
  unfolding write_app
  write_app_agree app c branch (err e) = refl
  write_app_agree app c branch (ok (slug, bot)) =
      marshal-Agree (app_settings app c slug bot branch)
        (app_settings-IsComplete app c slug bot branch)

-- A component whose registry secret gives host rules is isolated from the others on every platform:
-- whichever components, with and without host rules, were configured before on the shared map, its
-- configuration is the one that it gets from the map as it was first, if the JSON library writes a
-- map by its keys.
pub render-isolated :
    (api : RenovateApi) (first config : Dict Value) (config_map : Result (Dict Str))
    (c : BaseComponent) (g : GithubComponent) (parse : Str → Result Url) (app : GithubApi)
    (app_secret : Result Secret) (st : GithubState) (secret : Secret) (branch : Str) (r : HostRule)
    (rules : List HostRule)
    → Renders api first config
    → MarshalsByKeys api
    → get_host_rules api secret ≡ ok (r ∷ rules)
    → ((gitlab_config api config_map c (some secret) branch (some config)).0
        ≡ (gitlab_config api config_map c (some secret) branch (some first)).0)
      × ((forgejo_config api parse config_map c (some secret) branch (some config)).0
          ≡ (forgejo_config api parse config_map c (some secret) branch (some first)).0)
      × ((github_config api app config_map app_secret g (some secret) branch st (some config)).0
          ≡ (github_config api app config_map app_secret g (some secret) branch st (some first)).0)
unfolding gitlab_config forgejo_config github_config configure configure_app
    get_renovate_base_config
render-isolated api first config config_map c g parse app app_secret st secret branch r rules
      history by_keys own =
    let same : (j : Str) → IsUnmanaged j → Agree j config first = Renders-unmanaged api history in
    (
      ap (wrapped (codes "error marshaling updated Renovate config: ")) (
          marshal-Agree api by_keys secret r rules own config first same
            (token_settings c (gitlab_endpoint c) branch)
            (token_settings-IsComplete c (gitlab_endpoint c) branch)),
      ap (wrapped (codes "error marshaling updated Renovate config: ")) (
          marshal-Agree api by_keys secret r rules own config first same
            (token_settings c (forgejo_endpoint parse c) branch)
            (token_settings-IsComplete c (forgejo_endpoint parse c) branch)),
      write_app_agree api by_keys secret r rules own config first same app g.base branch
          (get_bot app app_secret st).0,
    )
