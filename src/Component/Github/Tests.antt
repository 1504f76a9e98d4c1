-- ===== src/Component/Github/Tests.antt =====
-- Examples of internal/component/github/github.go.
use mintmaker.Base.{
  ℕ, zero, suc, ◌<◌, none, some, [], ◌∷◌, List, codes, ok, failure, ◌≡◌, ◌≢◌, refl, inl, inr, map,
  length, arith, trim_suffix, trim_prefix, str_eq, lookup,
}
use mintmaker.Component.Tokens.{get_cached, usable}
use mintmaker.Component.Github.{
  fetch_app_installations, AppInstallation, app_client, installation_client,
}
use mintmaker.Component.Github.Access.{
  get_installation_id, installation_of, names_repository, fetch_token, github_token, Moment,
}
use mintmaker.Component.Github.Paging.{all_items, installation, Serves, fetch_app_installations_all}
use mintmaker.Component.Github.Lookup.{Identifies, get_installation_id-Identifies}
use mintmaker.Component.Github.Reuse.{github_token_reused}
use mintmaker.Component.Samples.{
  github, installation_page, repository_pages, repositories_at, app_component, fresh,
}

served : (id : ℕ) → Serves (repositories_at id) 0 (repository_pages id)
served zero = (failure (codes "forbidden"), refl)
served (suc zero) = (refl, inr (two_zero, (refl, inl (refl, refl))))
  where
    two_zero : ◌≢◌ {A = ℕ} 2 0
    two_zero h = omega arith
served (suc (suc id)) = (failure (codes "forbidden"), refl)

few_pages : (id : ℕ) → length (repository_pages id) < 3
few_pages zero = omega arith
few_pages (suc zero) = omega arith
few_pages (suc (suc id)) = omega arith

fetch_app_installations_all_example :
    fetch_app_installations github 3 7 none
    ≡ some (ok (map (installation (λ id. all_items (repository_pages id))) (1 ∷ 5 ∷ [])))
unfolding app_client installation_client
fetch_app_installations_all_example =
    fetch_app_installations_all github 3 7 none (codes "bot") (installation_page ∷ [])
      repository_pages refl (refl, inl (refl, refl)) (omega arith) (λ id. refl) served few_pages

abbrev installed : List AppInstallation
installed =
    record { installation_id = 1; repositories = codes "org/other" ∷ codes "/org/repo/" ∷ [] }
    ∷ record { installation_id = 5; repositories = [] }
    ∷ []

get_installation_id-Identifies_example :
    Identifies
      (codes "org/repo")
      installed
      (get_installation_id (some installed) (codes "org/repo"))
get_installation_id-Identifies_example = get_installation_id-Identifies (codes "org/repo") installed

abbrev at : ℕ → Moment
at now = record { checked = now; fetched = now; min_validity = 30; token_ttl = 60 }

github_token_reused_example :
    ((github_token github (at 100) (some installed) app_component fresh).0 ≡ ok (codes "token"))
    × (github_token github
          (at 130)
          (some installed)
          app_component
          (github_token github (at 100) (some installed) app_component fresh).1
        ≡ (
          ok (codes "token"),
          (github_token github (at 100) (some installed) app_component fresh).1,
        ))
unfolding get_installation_id installation_of names_repository trim_suffix trim_prefix str_eq
    get_cached usable lookup fetch_token
github_token_reused_example =
    github_token_reused github github (at 100) (at 130) (some installed) app_component fresh 1
      (codes "token") refl refl refl refl (omega arith)
