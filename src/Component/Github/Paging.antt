-- ===== src/Component/Github/Paging.antt =====
-- internal/component/github/github.go: the pages that the two loops read.
use mintmaker.Base.{
  ℕ, zero, suc, ◌<◌, ◌≤◌, true, false, Option, some, List, [], ◌∷◌, ◌++◌, Str, Result, ok, err,
  Error, ◌==◌, ◌≡◌, ◌≢◌, refl, sym, ap, ◌∙◌, ◌⊎◌, inl, inr, append_assoc, append-nil, length, map,
  arith,
}
use mathlib.Core.List.{map-append}
use mintmaker.Component.Github.{
  AppInstallation, Page, GithubApi, list_repos, installation_client, add_installations,
  next_installations, fetch_pages, app_client, fetch_app_installations,
}

module _ {A : Type 0} where
  abbrev pub all_items : List (Page A) → List A
  all_items [] = []
  all_items (p ∷ pages) = p.items ++ all_items pages

  -- The calls from a page on return these pages, and then one fails or the last names no next page.
  abbrev pub Serves : (ℕ → Result (Page A)) → ℕ → List (Page A) → Type 0
  Serves list page [] = (e : Error) × (list page ≡ err e)
  Serves list page (p ∷ pages) =
      (list page ≡ ok p)
      × (((p.next_page ≡ 0) × (pages ≡ [])) ⊎ ((p.next_page ≢ 0) × Serves list p.next_page pages))

  -- The same, and no call fails.
  abbrev pub ServesAll : (ℕ → Result (Page A)) → ℕ → List (Page A) → Type 0
  ServesAll list page [] = ⊥
  ServesAll list page (p ∷ pages) =
      (list page ≡ ok p)
      × (((p.next_page ≡ 0) × (pages ≡ []))
          ⊎ ((p.next_page ≢ 0) × ServesAll list p.next_page pages))

module _ (list : ℕ → Result (Page Str)) (fuel page : ℕ) (found : List Str) where
  list_repos_failed :
      (e : Error) → list page ≡ err e → list_repos list (suc fuel) page found ≡ some found
  unfolding list_repos
  list_repos_failed e h = rw (h, list_repos) refl

  list_repos_last :
      (p : Page Str)
      → list page ≡ ok p
      → (p.next_page == 0) ≡ true
      → list_repos list (suc fuel) page found ≡ some (found ++ p.items)
  unfolding list_repos
  list_repos_last p h last = rw (h, list_repos, last) refl

  list_repos_more :
      (p : Page Str)
      → list page ≡ ok p
      → (p.next_page == 0) ≡ false
      → list_repos list (suc fuel) page found ≡ list_repos list fuel p.next_page (found ++ p.items)
  unfolding list_repos
  list_repos_more p h more = rw (h, list_repos, more) refl

is_zero : (n : ℕ) → n ≡ 0 → (n == 0) ≡ true
is_zero n h = ground arith

not_zero : (n : ℕ) → n ≢ 0 → (n == 0) ≡ false
not_zero n h = ground arith

-- The loop over the repositories of an installation ends within one call more than there are pages,
-- and has the repositories of all of them, where a call failed those of the pages before it.
pub list_repos_all :
    (list : ℕ → Result (Page Str)) (pages : List (Page Str)) (fuel page : ℕ) (found : List Str)
    → Serves list page pages
    → length pages < fuel
    → list_repos list fuel page found ≡ some (found ++ all_items pages)
list_repos_all list pages zero page found served enough = absurd (no_fuel (length pages) enough)
  where
    no_fuel : (n : ℕ) → n < 0 → ⊥
    no_fuel n h = omega arith
list_repos_all list [] (suc fuel) page found (e, h) enough =
    list_repos_failed list fuel page found e h ∙ ap some (sym (append-nil found))
list_repos_all list (p ∷ pages) (suc fuel) page found (h, next) enough = elim next [
  | inl last ↦
      list_repos_last list fuel page found p h (is_zero p.next_page last.0)
      ∙ rw (last.1, append-nil p.items) refl
  | inr more ↦
      list_repos_more list fuel page found p h (not_zero p.next_page more.0)
      ∙ list_repos_all list pages fuel p.next_page (found ++ p.items) more.1 (omega arith)
      ∙ ap some (append_assoc found p.items (all_items pages))
]

abbrev pub installation : (ℕ → List Str) → ℕ → AppInstallation
installation repos id = record { installation_id = id; repositories = repos id }

module _ (connect : ℕ → Result (Unit {0})) (look : ℕ → Option (List Str)) (repos : ℕ → List Str)
    (connected : (id : ℕ) → connect id ≡ ok tt)
    (looked : (id : ℕ) → look id ≡ some (repos id)) where
  add_one :
      (id : ℕ) (ids : List ℕ) (found : List AppInstallation)
      → add_installations connect look (id ∷ ids) found
        ≡ add_installations connect look ids (found ++ installation repos id ∷ [])
  unfolding add_installations
  add_one id ids found = rw (connected id, add_installations, looked id) refl

  add_installations_all :
      (ids : List ℕ) (found : List AppInstallation)
      → add_installations connect look ids found ≡ some (ok (found ++ map (installation repos) ids))
  add_installations_all [] found =
      unfold add_installations in ap (λ l. some (ok l)) (sym (append-nil found))
  add_installations_all (id ∷ ids) found =
      add_one id ids found
      ∙ add_installations_all ids (found ++ installation repos id ∷ [])
      ∙ ap (λ l. some (ok l))
          (append_assoc found (installation repos id ∷ []) (map (installation repos) ids))

module _ (api : GithubApi)
    (add : List ℕ → List AppInstallation → Option (Result (List AppInstallation)))
    (repos : ℕ → List Str)
    (added : (ids : List ℕ) (found : List AppInstallation)
      → add ids found ≡ some (ok (found ++ map (installation repos) ids))) where
  fetch_last :
      (fuel page : ℕ) (found : List AppInstallation) (p : Page ℕ)
      → api.list_installations page ≡ ok p
      → (p.next_page == 0) ≡ true
      → fetch_pages api add (suc fuel) page found
        ≡ some (ok (found ++ map (installation repos) p.items))
  unfolding fetch_pages next_installations
  fetch_last fuel page found p h last = rw (h, fetch_pages, added p.items found, last) refl

  fetch_more :
      (fuel page : ℕ) (found : List AppInstallation) (p : Page ℕ)
      → api.list_installations page ≡ ok p
      → (p.next_page == 0) ≡ false
      → fetch_pages api add (suc fuel) page found
        ≡ fetch_pages api add fuel p.next_page (found ++ map (installation repos) p.items)
  unfolding fetch_pages next_installations
  fetch_more fuel page found p h more = rw (h, fetch_pages, added p.items found, more) refl

  fetch_pages_all :
      (pages : List (Page ℕ)) (fuel page : ℕ) (found : List AppInstallation)
      → ServesAll api.list_installations page pages
      → length pages ≤ fuel
      → fetch_pages api add fuel page found
        ≡ some (ok (found ++ map (installation repos) (all_items pages)))
  fetch_pages_all [] fuel page found served enough = absurd served
  fetch_pages_all (p ∷ pages) zero page found served enough = absurd (no_fuel (length pages) enough)
    where
      no_fuel : (n : ℕ) → suc n ≤ 0 → ⊥
      no_fuel n h = omega arith
  fetch_pages_all (p ∷ pages) (suc fuel) page found (h, next) enough = elim next [
    | inl last ↦
        fetch_last fuel page found p h (is_zero p.next_page last.0)
        ∙ rw (last.1, append-nil p.items) refl
    | inr more ↦
        fetch_more fuel page found p h (not_zero p.next_page more.0)
        ∙ fetch_pages_all pages fuel p.next_page (found ++ map (installation repos) p.items) more.1
            (omega arith)
        ∙ ap (λ l. some (ok l))
            (append_assoc found (map (installation repos) p.items)
                (map (installation repos) (all_items pages))
              ∙ ap (λ l. found ++ l)
                  (sym (map-append (installation repos) p.items (all_items pages))))
  ]

-- `fetchAppInstallations` ends: where the application's client and the clients of all installations can
-- be made, no page of installations fails, and the listing of every installation ends with its last
-- page or with a failed call, the result has an entry for each installation of every page, in order,
-- with the repositories of the pages that its own listing returned. These are all its repositories
-- where the listing came to its last page, and those before the failed call, perhaps none, where a
-- call failed. It is enough that as many calls may be made for a listing as there are pages of
-- installations, and one more than there are pages of any listing of repositories.
pub fetch_app_installations_all :
    (api : GithubApi) (fuel app : ℕ) (key : Option Str) (slug : Str) (pages : List (Page ℕ))
    (names : ℕ → List (Page Str))
    → app_client api app key ≡ ok slug
    → ServesAll api.list_installations 0 pages
    → length pages ≤ fuel
    → ((id : ℕ) → installation_client api app key id ≡ ok tt)
    → ((id : ℕ) → Serves (api.list_repositories id) 0 (names id))
    → ((id : ℕ) → length (names id) < fuel)
    → fetch_app_installations api fuel app key
      ≡ some (ok (map (installation (λ id. all_items (names id))) (all_items pages)))
unfolding fetch_app_installations
fetch_app_installations_all api fuel app key slug pages names client served enough connected listed
      inner =
    rw (client, fetch_app_installations)
      (fetch_pages_all api
        (add_installations (installation_client api app key)
          (λ id. list_repos (api.list_repositories id) fuel 0 []))
        (λ id. all_items (names id))
        (add_installations_all (installation_client api app key)
          (λ id. list_repos (api.list_repositories id) fuel 0 []) (λ id. all_items (names id))
          connected
          (λ id.
            list_repos_all (api.list_repositories id) (names id) fuel 0 [] (listed id) (inner id)))
        pages fuel 0 [] served enough)
