-- ===== src/Component/Renovate/Leak.antt =====
-- internal/component: the host rules of components without a registry secret.
use mintmaker.Base.{
  Option, none, some, List, [], ◌∷◌, Str, codes, str_eq, lookup, insert_all, Dict,
  insert_all-override, Result, ok, err, Error, ◌≡◌, refl, ap, ◌∙◌, ◌⊎◌, inl, inr,
}
use mintmaker.Cluster.Objects.{Secret}
use mintmaker.Utils.GitUrl.{Url}
use mintmaker.Component.Git.{BaseComponent, wrapped, gitlab_endpoint, forgejo_endpoint}
use mintmaker.Component.Renovate.{
  HostRule, Value, RenovateApi, get_host_rules, get_renovate_base_config, add_rules,
  with_host_rules, token_settings, configure, gitlab_config, forgejo_config,
}
use mintmaker.Component.Renovate.Written.{token_settings-IsComplete, with_own_rules}

-- There is no registry secret, or it gives no rules, or an error.
abbrev pub HasNoRules : RenovateApi → Option Secret → Type 0
HasNoRules api none = Unit
HasNoRules api (some secret) =
    (get_host_rules api secret ≡ ok []) ⊎ ((e : Error) × (get_host_rules api secret ≡ err e))

no_rules :
    (api : RenovateApi) (secret : Option Secret) (config : Dict Value)
    → HasNoRules api secret
    → with_host_rules api secret config ≡ config
unfolding with_host_rules add_rules
no_rules api none config h = refl
no_rules api (some secret) config (inl h) = rw (h, add_rules) refl
no_rules api (some secret) config (inr (e, h)) = rw (h, add_rules) refl

-- The settings of GitLab and Forgejo have no host rules.
settings_rules :
    (c : BaseComponent) (endpoint branch : Str) (config : Dict Value)
    → lookup (codes "hostRules") (insert_all (token_settings c endpoint branch) config)
      ≡ lookup (codes "hostRules") config
settings_rules c endpoint branch config =
    insert_all-override (token_settings c endpoint branch) config (codes "hostRules")
      (token_settings-IsComplete c endpoint branch).distinct
    ∙ (rw (none_there) refl)
  where
    none_there : lookup (codes "hostRules") (token_settings c endpoint branch) ≡ none
    none_there = unfold token_settings lookup str_eq in refl

module _ (api : RenovateApi) (c c' : BaseComponent) (endpoint endpoint' branch branch' : Str)
    (secret : Secret) (secret' : Option Secret) (r : HostRule) (rules : List HostRule)
    (own : get_host_rules api secret ≡ ok (r ∷ rules)) (without : HasNoRules api secret')
    (config : Dict Value) where
  abbrev first_map : Dict Value
  first_map =
      insert_all (token_settings c endpoint branch) (with_host_rules api (some secret) config)

  abbrev second_map : Dict Value
  second_map =
      insert_all (token_settings c' endpoint' branch') (with_host_rules api secret' first_map)

  second_rules : lookup (codes "hostRules") second_map ≡ some (Value.host_rules (r ∷ rules))
  second_rules =
      settings_rules c' endpoint' branch' (with_host_rules api secret' first_map)
      ∙ ap (lookup (codes "hostRules")) (no_rules api secret' first_map without)
      ∙ settings_rules c endpoint branch (with_host_rules api (some secret) config)
      ∙ with_own_rules api secret r rules config (codes "hostRules") own (unfold str_eq in refl)

-- The configuration of a component without host rules of its own holds the host rules, and so the
-- registry's credentials, of the component that was configured before it: after a GitLab component
-- whose registry secret gives rules, what is written for a GitLab or Forgejo component whose secret
-- is missing, or gives no rules or an error, is a map that has the rules of the first, whatever the
-- two components are.
pub gitlab_config-leak :
    (api : RenovateApi) (parse : Str → Result Url) (config_map : Result (Dict Str))
    (c c' : BaseComponent) (branch branch' : Str) (secret : Secret) (secret' : Option Secret)
    (r : HostRule) (rules : List HostRule) (config : Dict Value)
    → get_host_rules api secret ≡ ok (r ∷ rules)
    → HasNoRules api secret'
    → ((b : Dict Value) × ((gitlab_config api config_map c' secret' branch'
            (gitlab_config api config_map c (some secret) branch (some config)).1).0
          ≡ wrapped (codes "error marshaling updated Renovate config: ") (api.marshal b))
        × (lookup (codes "hostRules") b ≡ some (Value.host_rules (r ∷ rules))))
      × ((b : Dict Value) × ((forgejo_config api parse config_map c' secret' branch'
              (gitlab_config api config_map c (some secret) branch (some config)).1).0
            ≡ wrapped (codes "error marshaling updated Renovate config: ") (api.marshal b))
          × (lookup (codes "hostRules") b ≡ some (Value.host_rules (r ∷ rules))))
unfolding gitlab_config forgejo_config configure get_renovate_base_config
gitlab_config-leak api parse config_map c c' branch branch' secret secret' r rules config own
      without =
    (
      (
        _,
        refl,
        second_rules api c c' (gitlab_endpoint c) (gitlab_endpoint c') branch branch' secret secret'
            r rules own without config,
      ),
      (
        _,
        refl,
        second_rules api c c' (gitlab_endpoint c) (forgejo_endpoint parse c') branch branch' secret
            secret' r rules own without config,
      ),
    )
