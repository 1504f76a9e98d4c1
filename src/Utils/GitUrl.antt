-- ===== src/Utils/GitUrl.antt =====
-- internal/utils/utils.go: the platform, host and path of a repository's URL; `GetGitURL` and
-- `GetVersions` of internal/component/component.go are in Component.Source. `url.Parse` comes from
-- outside.
pub mod Facts
mod Tests
use mintmaker.Base.{
  Bool, Option, none, some, List, [], ◌∷◌, ◌++◌, Str, codes, cut, contains_str, is_empty,
  trim_prefix, trim_suffix, Result, ok, err, failure, if◌then◌else◌, str_eq,
}

-- What the program reads of a parsed URL.
pub record Url : Type 0 where
  pub scheme : Str
  pub hostname : Str
  pub path : Str

unfoldable pub invalid_ssh : Str → Result Str
invalid_ssh url = err (failure (codes "invalid SSH URL format: " ++ url))

-- `hostPart[1]` of `strings.SplitN(parts[0], "@", 2)`
unfoldable pub host_part : Str → Option (Str × Str) → Result Str
host_part url none = invalid_ssh url
host_part url (some (user, host)) = ok host

unfoldable pub ssh_host : Str → Option (Str × Str) → Result Str
ssh_host url none = invalid_ssh url
ssh_host url (some (before_colon, rest)) = host_part url (cut b'@' before_colon)

unfoldable pub hostname_of : Result Url → Result Str
hostname_of (err e) = err e
hostname_of (ok u) = ok u.hostname

-- `GetGitHost`
unfoldable pub get_git_host : (Str → Result Url) → Str → Result Str
get_git_host parse url =
    if contains_str url (codes "@") then ssh_host url (cut b':' url) else hostname_of (parse url)

unfoldable pub ssh_path : Str → Option (Str × Str) → Result Str
ssh_path url none = invalid_ssh url
ssh_path url (some (before_colon, rest)) = ok (trim_prefix b'/' rest)

unfoldable pub path_of : Result Url → Result Str
path_of (err e) = err e
path_of (ok u) = ok (trim_prefix b'/' u.path)

-- `strings.TrimSuffix(strings.TrimSuffix(giturl, "/"), ".git")`
unfoldable pub trim_url : Str → Str
trim_url url = trim_suffix (trim_suffix url (codes "/")) (codes ".git")

-- `GetGitPath`
unfoldable pub get_git_path : (Str → Result Url) → Str → Result Str
get_git_path parse url =
    if contains_str (trim_url url) (codes "@")
    then ssh_path (trim_url url) (cut b':' (trim_url url))
    else path_of (parse (trim_url url))

-- The loop over the platforms: the first of them that the host contains.
unfoldable pub first_platform : Str → List Str → Str
first_platform host [] = []
first_platform host (platform ∷ platforms) =
    let later = first_platform host platforms in
    if contains_str host platform then platform else later

abbrev pub allowed_git_platforms : List Str
allowed_git_platforms = codes "github" ∷ codes "gitlab" ∷ codes "forge" ∷ []

-- `forge` becomes `forgejo`, and no platform an error.
unfoldable pub named_platform : Str → Str → Result Str
named_platform url [] = err (failure (codes "unsupported git platform for repository " ++ url))
named_platform url (c ∷ platform) =
    if str_eq (c ∷ platform) (codes "forge") then ok (codes "forgejo") else ok (c ∷ platform)

unfoldable pub platform_of_host : Str → Result Str → Result Str
platform_of_host url (err e) = err e
platform_of_host url (ok host) = named_platform url (first_platform host allowed_git_platforms)

-- `GetGitPlatform`
unfoldable pub get_git_platform : (Str → Result Url) → Str → Result Str
unfolding get_git_host
get_git_platform parse url = platform_of_host url (get_git_host parse url)
