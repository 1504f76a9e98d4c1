-- ===== src/Component/Factory/Tests.antt =====
-- An example of `NewGitComponent`: a repository on GitLab.
use mintmaker.Base.{Bool, Str, ok, err, codes, ◌≡◌, refl, not_found}
use mintmaker.Component.Source.{get_git_url, get_versions}
use mintmaker.Component.Factory.{
  AnyComponent, construct_from, construct_on, construct, map_result, new_git_component,
}
use mintmaker.Component.Factory.Describes.{IsFor, new_git_component-IsFor}
use mintmaker.Component.Samples.{parse, resource, github, fresh, base}
use mintmaker.Base.{[], ◌∷◌, contains_str, str_eq, trim_suffix, trim_prefix}
use mintmaker.Utils.GitUrl.{
  get_git_platform, platform_of_host, hostname_of, named_platform, first_platform, get_git_path,
  trim_url, path_of,
}
use mintmaker.Component.Git.{new_base_component}

new_git_component-IsFor_example :
    (source : Str × Bool) × (get_git_url resource ≡ ok source)
    × IsFor parse resource source (AnyComponent.on_gitlab (base (codes "a") (codes "main" ∷ [])))
unfolding new_git_component construct_from construct_on construct map_result get_git_url
    get_git_platform platform_of_host contains_str hostname_of named_platform first_platform str_eq
    new_base_component get_git_path trim_url trim_suffix path_of trim_prefix get_versions
new_git_component-IsFor_example =
    new_git_component-IsFor github parse (err not_found) resource fresh
      (AnyComponent.on_gitlab (base (codes "a") (codes "main" ∷ []))) refl
