-- ===== src/Component/Git.antt =====
-- The methods that the components of the three platforms have in common: `NewComponent`,
-- `GetBranches`, `getDefaultBranch`, `getOwnerAndRepo`, `GetAPIEndpoint` and `getClient` of
-- internal/component/gitlab/gitlab.go, internal/component/forgejo/forgejo.go and
-- internal/component/github/github.go, and `BaseComponent` of internal/component/base/base.go. The
-- clients of the platforms come from outside; a token is the result of `GetToken`.
pub mod Branches
pub mod Parts
pub mod Owner
mod Tests
use mintmaker.Base.{
  Bool, true, false, ◌&&◌, Option, none, some, List, [], ◌∷◌, ◌++◌, Str, codes, cut, split,
  is_empty, Result, ok, err, Error, failure, if◌then◌else◌, ◌>>=◌,
}
use mintmaker.Cluster.Objects.{AppComponent}
use mintmaker.Utils.GitUrl.{Url, get_git_platform, get_git_host, get_git_path}
use mintmaker.Component.Secrets.{wrap}

pub record BaseComponent : Type 0 where
  pub name : Str
  pub namespace : Str
  pub application : Str
  pub platform : Str
  pub host : Str
  pub git_url : Str
  pub repository : Str
  pub versions : List Str
  pub old_crd_version : Bool

-- `NewComponent` of GitLab and Forgejo, and the second half of that of GitHub
unfoldable pub new_base_component :
    (Str → Result Url) → AppComponent → Str → List Str → Bool → Result BaseComponent
new_base_component parse comp url versions old = do
  platform ← get_git_platform parse url
  host ← get_git_host parse url
  repository ← get_git_path parse url
  ok (record {
    name = comp.name;
    namespace = comp.namespace;
    application = comp.application;
    platform = platform;
    host = host;
    git_url = url;
    repository = repository;
    versions = versions;
    old_crd_version = old;
  })

-- A client of a platform: whether it can be made for a base URL and a token, the branches of a
-- repository, and its default branch, none where the answer has none.
pub record GitApi : Type 0 where
  pub connect : Str → Str → Result (Unit {0})
  pub has_branch : Str → Str → Bool
  pub default_branch : Str → Result (Option Str)

-- `fmt.Errorf` with `%w` around the error of a call
abbrev pub wrapped {ℓ} : {A : Type ℓ} → Str → Result A → Result A
wrapped context (ok a) = ok a
wrapped context (err e) = err (wrap context e)

-- The loop over the versions.
unfoldable pub found_branches : (Str → Bool) → List Str → List Str
found_branches exists [] = []
found_branches exists (v ∷ versions) =
    let rest = found_branches exists versions in if exists v then v ∷ rest else rest

-- The end of `GetBranches`
unfoldable pub some_branches : List Str → Result (List Str)
some_branches [] = err (failure (codes "no versions found or all versions are tags (not branches)"))
some_branches (b ∷ branches) = ok (b ∷ branches)

-- The only branch of a component of the old model without a revision
unfoldable pub default_branches : Result Str → Result (List Str)
default_branches (err e) =
    err (
      wrap (codes "component does not have a branch specified and failed to get default branch: ")
        e)
default_branches (ok branch) = ok (branch ∷ [])

unfoldable pub listed_branches : Result (Str → Bool) → List Str → Result (List Str)
listed_branches (err e) versions = err e
listed_branches (ok exists) versions = some_branches (found_branches exists versions)

unfoldable pub branches_for : Bool → Result Str → Result (Str → Bool) → List Str → Result (List Str)
branches_for true default client [] = default_branches default
branches_for false default client [] = listed_branches client []
branches_for old default client (v ∷ versions) = listed_branches client (v ∷ versions)

-- `GetBranches`, over `getDefaultBranch` and the preparations of the client
unfoldable pub get_branches : BaseComponent → Result Str → Result (Str → Bool) → Result (List Str)
unfolding branches_for
get_branches c default client = branches_for c.old_crd_version default client c.versions

-- `getClient` of GitLab: the scheme is that of the component's URL.
unfoldable pub gitlab_client :
    (Str → Result Url) → GitApi → BaseComponent → Result Str → Result (Unit {0})
gitlab_client parse api c token = do
  t ← wrapped (codes "failed to get GitLab token: ") token
  u ← wrapped (codes "failed to parse git url: ") (parse c.git_url)
  wrapped (codes "failed to create GitLab client: ")
      (api.connect (u.scheme ++ (codes "://" ++ c.host)) t)

-- `scheme` of Forgejo
unfoldable pub scheme_of : Result Url → Str
scheme_of (err e) = codes "https"
scheme_of (ok u) = if is_empty u.scheme then codes "https" else u.scheme

-- `getClient` of Forgejo
unfoldable pub forgejo_client :
    (Str → Result Url) → GitApi → BaseComponent → Result Str → Result (Unit {0})
forgejo_client parse api c token = do
  t ← wrapped (codes "failed to get Forgejo token: ") token
  wrapped (codes "failed to create Forgejo client: ")
      (api.connect (scheme_of (parse c.git_url) ++ (codes "://" ++ c.host)) t)

-- `%q` of a repository, which has no byte that is escaped
unfoldable pub not_owned : Str → Result (Str × Str)
not_owned repository = err (
    failure
      (codes "invalid repository format \"" ++ (repository ++ codes "\" (expected owner/repo)")))

-- `getOwnerAndRepo` of Forgejo: the repository is all that follows the first slash.
unfoldable pub owner_before : Str → Option (Str × Str) → Result (Str × Str)
owner_before repository none = not_owned repository
owner_before repository (some (owner, repo)) =
    if is_empty owner
    then not_owned repository
    else if is_empty repo
    then not_owned repository
    else ok (owner, repo)

unfoldable pub forgejo_owner_and_repo : Str → Result (Str × Str)
unfolding owner_before
forgejo_owner_and_repo repository = owner_before repository (cut b'/' repository)

unfoldable pub invalid_repository : Str → Result (Str × Str)
invalid_repository repository = err (failure (codes "invalid repository format: " ++ repository))

-- `getOwnerAndRepo` of GitHub: there are two parts.
unfoldable pub two_parts : Str → List Str → Result (Str × Str)
two_parts repository (owner ∷ repo ∷ []) = ok (owner, repo)
two_parts repository _ = invalid_repository repository

unfoldable pub github_owner_and_repo : Str → Result (Str × Str)
unfolding two_parts
github_owner_and_repo repository = two_parts repository (split b'/' repository)

-- `getDefaultBranch` of GitLab; an empty name is passed on.
unfoldable pub gitlab_default_branch :
    (Str → Result Url) → GitApi → BaseComponent → Result Str → Result Str
gitlab_default_branch parse api c token = do
  connected ← wrapped (codes "failed to get GitLab client: ") (gitlab_client parse api c token)
  branch ← api.default_branch c.repository
  elim branch [
    | none ↦ err (failure (codes "project info is empty in GitLab API response"))
    | some b ↦ ok b
  ]

unfoldable pub named_branch : Option Str → Result Str
named_branch none =
    err (failure (codes "repository or default branch is empty in Forgejo API response"))
named_branch (some []) =
    err (failure (codes "repository or default branch is empty in Forgejo API response"))
named_branch (some (c ∷ b)) = ok (c ∷ b)

-- `getDefaultBranch` of Forgejo
unfoldable pub forgejo_default_branch :
    (Str → Result Url) → GitApi → BaseComponent → Result Str → Result Str
forgejo_default_branch parse api c token = do
  connected ← wrapped (codes "failed to get Forgejo client: ") (forgejo_client parse api c token)
  parts ← forgejo_owner_and_repo c.repository
  branch ← wrapped (codes "failed to get repo: ") (api.default_branch c.repository)
  named_branch branch

-- `GetBranches` of GitLab
unfoldable pub gitlab_branches :
    (Str → Result Url) → GitApi → BaseComponent → Result Str → Result (List Str)
gitlab_branches parse api c token = get_branches c (gitlab_default_branch parse api c token) client
  where
    client : Result (Str → Bool)
    client = do
      connected ← wrapped (codes "failed to get GitLab client: ") (gitlab_client parse api c token)
      ok (api.has_branch c.repository)

-- `GetBranches` of Forgejo
unfoldable pub forgejo_branches :
    (Str → Result Url) → GitApi → BaseComponent → Result Str → Result (List Str)
forgejo_branches parse api c token =
    get_branches c (forgejo_default_branch parse api c token) client
  where
    client : Result (Str → Bool)
    client = do
      connected ←
          wrapped (codes "GetBranches: failed to get Forgejo client: ")
            (forgejo_client parse api c token)
      parts ←
          wrapped (codes "GetBranches: failed to get owner and repository: ")
            (forgejo_owner_and_repo c.repository)
      ok (api.has_branch c.repository)

-- `GetAPIEndpoint` of the three platforms
unfoldable pub gitlab_endpoint : BaseComponent → Str
gitlab_endpoint c = codes "https://" ++ (c.host ++ codes "/api/v4/")

unfoldable pub forgejo_endpoint : (Str → Result Url) → BaseComponent → Str
forgejo_endpoint parse c =
    scheme_of (parse c.git_url) ++ (codes "://" ++ (c.host ++ codes "/api/v1/"))

unfoldable pub github_endpoint : BaseComponent → Str
github_endpoint c = codes "https://api." ++ (c.host ++ codes "/")
