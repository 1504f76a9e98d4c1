-- ===== src/Component/Github.antt =====
-- internal/component/github/github.go: the application, its installations and their repositories.
-- GitHub's client, `strconv` and the clock come from outside; identifiers are not negative. The
-- variables of the package are a state that is passed on.
pub mod Access
mod Paging
mod Lookup
mod Reuse
mod Tests
use mintmaker.Base.{
  ℕ, zero, suc, Bool, true, false, Option, none, some, List, [], ◌∷◌, ◌++◌, Str, codes, lookup,
  Result, ok, err, Error, failure, if◌then◌else◌, ◌==◌, ◌>>=◌,
}
use mintmaker.Cluster.Objects.{Secret}
use mintmaker.Component.Secrets.{wrap, data_value}
use mintmaker.Component.Tokens.{TokenCache}
use mintmaker.Component.Git.{wrapped}

pub record AppInstallation : Type 0 where
  pub installation_id : ℕ
  pub repositories : List Str

-- `ghAppID`, `ghAppPrivateKey`, `ghAppSlug`, `ghUserID` and `ghAppInstallationTokenCache`
pub record GithubState : Type 0 where
  pub app_id : ℕ
  pub private_key : Option Str
  pub app_slug : Str
  pub user_id : ℕ
  pub tokens : TokenCache

-- One page of a listing: its items, and the number of the next page, zero after the last one.
pub record Page {ℓ} (A : Type ℓ) : Type ℓ where
  pub items : List A
  pub next_page : ℕ

-- What the package asks of GitHub and of other libraries. The listings take a page, where zero is
-- the first; `status_of` is the status of a failed response, zero where there is none.
pub record GithubApi : Type 0 where
  pub parse_int : Str → Result ℕ
  pub format_int : ℕ → Str
  pub apps_transport : ℕ → Option Str → Result (Unit {0})
  pub installation_transport : ℕ → ℕ → Option Str → Result (Unit {0})
  pub new_client : Result (Unit {0})
  pub get_app : ℕ → Option Str → Result Str
  pub status_of : Error → ℕ
  pub list_installations : ℕ → Result (Page ℕ)
  pub list_repositories : ℕ → ℕ → Result (Page Str)
  pub new_token : ℕ → ℕ → Option Str → Result Str
  pub get_user : Str → Result ℕ
  pub has_branch : Str → Str → Str → Bool
  pub default_branch : Str → Str → Result (Option Str)

-- `getAppIDAndKey`, with the answer to the read of the secret
unfoldable pub read_app :
    GithubApi → GithubState → Result Secret → Result (ℕ × Option Str) × GithubState
read_app api st (err e) = (err e, st)
read_app api st (ok s) = elim (api.parse_int (data_value s (codes "github-application-id"))) [
  | err e ↦ (err (wrap (codes "failed to parse GitHub APP ID: ") e), st)
  | ok id ↦
      let key = lookup (codes "github-private-key") s.values in
      (ok (id, key), record st { app_id = id; private_key = key })
]

unfoldable pub known_app : GithubState → Option (ℕ × Option Str)
known_app st = elim st.private_key [
  | none ↦ none
  | some key ↦ if st.app_id == 0 then none else some (st.app_id, some key)
]

unfoldable pub get_app_id_and_key :
    GithubApi → Result Secret → GithubState → Result (ℕ × Option Str) × GithubState
get_app_id_and_key api secret st = elim (known_app st) [
  | some app ↦ (ok app, st)
  | none ↦ read_app api st secret
]

-- The loop over the repositories of an installation. A failed call ends it with what there is; the
-- fuel is the number of calls that may be made, and none means that it was not enough.
unfoldable pub list_repos : (ℕ → Result (Page Str)) → ℕ → ℕ → List Str → Option (List Str)
list_repos list zero page found = none
list_repos list (suc fuel) page found = elim (list page) [
  | err e ↦ some found
  | ok p ↦
      let more = list_repos list fuel p.next_page (found ++ p.items) in
      if p.next_page == 0 then some (found ++ p.items) else more
]

-- The clients that are made for an installation
unfoldable pub installation_client : GithubApi → ℕ → Option Str → ℕ → Result (Unit {0})
installation_client api app key id = do
  transport ←
      wrapped (codes "error creating installation transport: ")
        (api.installation_transport app id key)
  wrapped (codes "failed to create GitHub installation client: ") api.new_client

-- The loop over the installations of a page, whose repositories are found by a function
unfoldable pub add_installations :
    (ℕ → Result (Unit {0}))
    → (ℕ → Option (List Str))
    → List ℕ
    → List AppInstallation
    → Option (Result (List AppInstallation))
add_installations connect repos [] found = some (ok found)
add_installations connect repos (id ∷ ids) found = elim (connect id) [
  | err e ↦ some (err e)
  | ok _ ↦ elim (repos id) [
    | none ↦ none
    | some names ↦
        add_installations connect repos ids
          (found ++ (record { installation_id = id; repositories = names }) ∷ [])
  ]
]

unfoldable pub listing_error : ℕ → Error → Error
listing_error status e =
    if status == 401
    then failure (codes "GitHub Application private key does not match Application ID")
    else if status == 404
    then failure (codes "GitHub Application with given ID does not exist")
    else wrap (codes "error getting GitHub Application installations: ") e

-- What follows a page of installations
unfoldable pub next_installations :
    (List AppInstallation → Option (Result (List AppInstallation)))
    → ℕ
    → Option (Result (List AppInstallation))
    → Option (Result (List AppInstallation))
next_installations more next none = none
next_installations more next (some (err e)) = some (err e)
next_installations more next (some (ok found)) =
    let rest = more found in if next == 0 then some (ok found) else rest

-- The loop over the pages of installations, given what is done with a page
unfoldable pub fetch_pages :
    GithubApi
    → (List ℕ → List AppInstallation → Option (Result (List AppInstallation)))
    → ℕ
    → ℕ
    → List AppInstallation
    → Option (Result (List AppInstallation))
fetch_pages api add zero page found = none
fetch_pages api add (suc fuel) page found = elim (api.list_installations page) [
  | err e ↦ some (err (listing_error (api.status_of e) e))
  | ok p ↦ next_installations (fetch_pages api add fuel p.next_page) p.next_page (add p.items found)
]

-- The first half of `fetchAppInstallations`
unfoldable pub app_client : GithubApi → ℕ → Option Str → Result Str
app_client api app key = do
  transport ← api.apps_transport app key
  client ← wrapped (codes "failed to create GitHub client: ") api.new_client
  wrapped (codes "failed to load GitHub app metadata, ") (api.get_app app key)

-- `fetchAppInstallations`, with one bound for the pages of each listing
unfoldable pub fetch_app_installations :
    GithubApi → ℕ → ℕ → Option Str → Option (Result (List AppInstallation))
fetch_app_installations api fuel app key = elim (app_client api app key) [
  | err e ↦ some (err e)
  | ok _ ↦
      fetch_pages api
        (add_installations (installation_client api app key)
          (λ id. list_repos (api.list_repositories id) fuel 0 []))
        fuel 0 []
]
