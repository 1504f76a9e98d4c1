-- ===== src/Component/Factory.antt =====
-- internal/component/component.go: `NewGitComponent`, which chooses the platform's constructor.
mod Describes
mod Tests
use mintmaker.Base.{
  ℕ, Bool, true, false, Option, none, some, List, [], ◌∷◌, ◌++◌, Str, codes, str_eq, Result, ok,
  err, Error, failure, if◌then◌else◌,
}
use mintmaker.Cluster.Objects.{AppComponent, Secret}
use mintmaker.Utils.GitUrl.{Url, get_git_platform}
use mintmaker.Component.Source.{get_git_url, get_versions}
use mintmaker.Component.Git.{BaseComponent, new_base_component, wrapped}
use mintmaker.Component.Github.{GithubState, GithubApi}
use mintmaker.Component.Github.Access.{GithubComponent, new_component}

-- The three implementations of the interface.
pub data AnyComponent : Type 0 where
  on_github : GithubComponent → AnyComponent
  on_gitlab : BaseComponent → AnyComponent
  on_forgejo : BaseComponent → AnyComponent

unfoldable pub map_result {ℓ} : {A B : Type ℓ} → (A → B) → Result A → Result B
map_result f (err e) = err e
map_result f (ok a) = ok (f a)

-- The choice of the constructor, for the URL and the model that it comes from
unfoldable pub construct :
    GithubApi
    → (Str → Result Url)
    → Result Secret
    → AppComponent
    → Str × Bool
    → Str
    → GithubState
    → Result AnyComponent × GithubState
construct api parse secret comp (url, old) platform st =
    let made = new_component api parse secret comp url (get_versions comp) old st in
    let base = new_base_component parse comp url (get_versions comp) old in
    if str_eq platform (codes "github")
    then (
      map_result AnyComponent.on_github (wrapped (codes "error creating git component: ") made.0),
      made.1,
    )
    else if str_eq platform (codes "gitlab")
    then (
      map_result AnyComponent.on_gitlab (wrapped (codes "error creating git component: ") base),
      st,
    )
    else if str_eq platform (codes "forgejo")
    then (
      map_result AnyComponent.on_forgejo (wrapped (codes "error creating git component: ") base),
      st,
    )
    else (err (failure (codes "unsupported platform: " ++ platform)), st)

unfoldable pub construct_on :
    GithubApi
    → (Str → Result Url)
    → Result Secret
    → AppComponent
    → Str × Bool
    → Result Str
    → GithubState
    → Result AnyComponent × GithubState
construct_on api parse secret comp source (err e) st = (err e, st)
construct_on api parse secret comp source (ok platform) st =
    construct api parse secret comp source platform st

unfoldable pub construct_from :
    GithubApi
    → (Str → Result Url)
    → Result Secret
    → AppComponent
    → Result (Str × Bool)
    → GithubState
    → Result AnyComponent × GithubState
construct_from api parse secret comp (err e) st = (err e, st)
construct_from api parse secret comp (ok source) st =
    construct_on api parse secret comp source (get_git_platform parse source.0) st

-- `NewGitComponent`, with the answer to the read of the application's secret
unfoldable pub new_git_component :
    GithubApi
    → (Str → Result Url)
    → Result Secret
    → AppComponent
    → GithubState
    → Result AnyComponent × GithubState
new_git_component api parse secret comp st =
    construct_from api parse secret comp (get_git_url comp) st
