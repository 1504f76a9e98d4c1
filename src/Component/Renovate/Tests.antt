-- ===== src/Component/Renovate/Tests.antt =====
-- Examples of `GetRenovateConfig`: a component with a registry secret and one without.
use mintmaker.Base.{
  none, some, [], ◌∷◌, Str, codes, lookup, Dict, ok, err, ◌≡◌, refl, Option, failure, ◌++◌, insert,
  insert_all, str_eq,
}
use mintmaker.Component.Git.{wrapped, gitlab_endpoint}
use mintmaker.Component.Renovate.{
  HostRule, Value, RenovateApi, gitlab_config, forgejo_config, github_config, get_host_rules,
  rules_of, rules_for, host_rule, auths_in, token_settings, configure, get_renovate_base_config,
  with_host_rules,
}
use mintmaker.Component.Renovate.History.{Renders, MarshalsByKeys, render-isolated}
use mintmaker.Component.Renovate.Leak.{gitlab_config-leak}
use mintmaker.Component.Samples.{parse, base, app_component, github, fresh, secret}

abbrev shown : Option Value → Str
shown (some (Value.text s)) = s
shown (some (Value.parsed s)) = s
shown (some (Value.host_rules r)) = codes "rules"
shown (some (Value.repositories b r)) = r
shown none = []

abbrev api : RenovateApi
api = record {
  unmarshal_auths = λ text. ok ((codes "auths", (codes "quay.io", []) ∷ []) ∷ []);
  decode_base64 = λ text. ok (codes "user:word");
  unmarshal = λ text. ok [];
  marshal = λ config.
      ok (shown (lookup (codes "hostRules") config) ++ shown (lookup (codes "platform") config));
}

api-MarshalsByKeys : MarshalsByKeys api
api-MarshalsByKeys a b same =
    λ i. ok (shown (same (codes "hostRules") i) ++ shown (same (codes "platform") i))

abbrev rule : HostRule
rule = (codes "matchHost", codes "quay.io") ∷ []

abbrev first : Dict Value
first = (codes "extends", Value.parsed (codes "[]")) ∷ []

abbrev later : Dict Value
later =
    insert_all
      (token_settings (base (codes "a") []) (gitlab_endpoint (base (codes "a") [])) (codes "v1"))
      first

rendered : Renders api first later
unfolding gitlab_config configure get_renovate_base_config with_host_rules
rendered = Renders.gitlab Renders.start (ok []) (base (codes "a") []) none (codes "v1") refl

render-isolated_example :
    ((gitlab_config api
        (ok [])
        (base (codes "b") [])
        (some (secret (codes "{}")))
        (codes "main")
        (some later)).0
      ≡ (gitlab_config api
          (ok [])
          (base (codes "b") [])
          (some (secret (codes "{}")))
          (codes "main")
          (some first)).0)
    × ((forgejo_config api parse
          (ok [])
          (base (codes "b") [])
          (some (secret (codes "{}")))
          (codes "main")
          (some later)).0
        ≡ (forgejo_config api parse
            (ok [])
            (base (codes "b") [])
            (some (secret (codes "{}")))
            (codes "main")
            (some first)).0)
    × ((github_config api github
          (ok [])
          (err (failure []))
          app_component
          (some (secret (codes "{}")))
          (codes "main")
          fresh
          (some later)).0
        ≡ (github_config api github
            (ok [])
            (err (failure []))
            app_component
            (some (secret (codes "{}")))
            (codes "main")
            fresh
            (some first)).0)
unfolding get_host_rules rules_of rules_for host_rule auths_in lookup insert str_eq
render-isolated_example =
    render-isolated api first later (ok []) (base (codes "b") []) app_component parse github
      (err (failure [])) fresh (secret (codes "{}")) (codes "main") rule [] rendered
      api-MarshalsByKeys refl

gitlab_config-leak_example :
    ((b : Dict Value) × ((gitlab_config api
          (ok [])
          (base (codes "b") [])
          none
          (codes "v1")
          (gitlab_config api
            (ok [])
            (base (codes "a") [])
            (some (secret (codes "{}")))
            (codes "main")
            (some first)).1).0
        ≡ wrapped (codes "error marshaling updated Renovate config: ") (api.marshal b))
      × (lookup (codes "hostRules") b ≡ some (Value.host_rules (rule ∷ []))))
    × ((b : Dict Value) × ((forgejo_config api parse
            (ok [])
            (base (codes "b") [])
            none
            (codes "v1")
            (gitlab_config api
              (ok [])
              (base (codes "a") [])
              (some (secret (codes "{}")))
              (codes "main")
              (some first)).1).0
          ≡ wrapped (codes "error marshaling updated Renovate config: ") (api.marshal b))
        × (lookup (codes "hostRules") b ≡ some (Value.host_rules (rule ∷ []))))
unfolding get_host_rules rules_of rules_for host_rule auths_in lookup insert str_eq
gitlab_config-leak_example =
    gitlab_config-leak api parse (ok []) (base (codes "a") []) (base (codes "b") []) (codes "main")
      (codes "v1") (secret (codes "{}")) none rule [] first refl tt
