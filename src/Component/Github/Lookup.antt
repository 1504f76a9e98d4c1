-- ===== src/Component/Github/Lookup.antt =====
-- internal/component/github/github.go: the installation of a repository, and how long a token is
-- used again.
use mintmaker.Base.{
  ℕ, true, false, Option, none, some, List, [], ◌∷◌, ◌++◌, Str, str_eq, str_eq_iff, codes, failure,
  trim_prefix, trim_suffix, In, Result, ok, err, Error, ◌≡◌, refl, sym, ap, ◌∙◌, subst, inl, inr,
  Bool-cases,
}
use mintmaker.Component.Github.{AppInstallation}
use mintmaker.Component.Github.Access.{names_repository, installation_of, get_installation_id}

-- One of its repositories is this one, but for a slash at either end.
abbrev pub Names : Str → AppInstallation → Type 0
Names repository i =
    (name : Str) × In name i.repositories
    × (trim_suffix (trim_prefix b'/' name) (codes "/") ≡ repository)

-- The first installation that names the repository, or none does.
abbrev pub FirstNaming : Str → List AppInstallation → Option ℕ → Type 0
FirstNaming repository installations none =
    (i : AppInstallation) → In i installations → Names repository i → ⊥
FirstNaming repository installations (some id) =
    (before : List AppInstallation) × (i : AppInstallation) × (after : List AppInstallation)
    × (installations ≡ before ++ i ∷ after)
    × Names repository i
    × (id ≡ i.installation_id)
    × ((j : AppInstallation) → In j before → Names repository j → ⊥)

abbrev NamedIn : Str → List Str → Type 0
NamedIn repository names =
    (name : Str) × In name names × (trim_suffix (trim_prefix b'/' name) (codes "/") ≡ repository)

true-false : true ≡ false → ⊥
true-false h = cc

named :
    (repository : Str) (names : List Str)
    → names_repository repository names ≡ true
    → NamedIn repository names
unfolding names_repository
named repository [] h = absurd (true-false (sym h))
named repository (n ∷ names) h =
    elim (Bool-cases (str_eq (trim_suffix (trim_prefix b'/' n) (codes "/")) repository)) [
      | inl on ↦ (n, inl refl, (str_eq_iff _ repository).0 on)
      | inr off ↦
          let later = named repository names (sym (rw off refl) ∙ h) in
          (later.0, inr later.1, later.2)
    ]

unnamed :
    (repository : Str) (names : List Str)
    → names_repository repository names ≡ false
    → NamedIn repository names
    → ⊥
unfolding names_repository
unnamed repository [] h k = k.1
unnamed repository (n ∷ names) h k =
    elim (Bool-cases (str_eq (trim_suffix (trim_prefix b'/' n) (codes "/")) repository)) [
      | inl on ↦ true-false (sym (rw on refl) ∙ h)
      | inr off ↦ elim k.1 [
        | inl e ↦
            let same : trim_suffix (trim_prefix b'/' n) (codes "/") ≡ repository =
              ap (λ s. trim_suffix (trim_prefix b'/' s) (codes "/")) e ∙ k.2 in
            true-false (sym ((str_eq_iff _ repository).1 same) ∙ off)
        | inr m ↦ unnamed repository names (sym (rw off refl) ∙ h) (k.0, m, k.2)
      ]
    ]

module _ (repository : Str) (i : AppInstallation) (installations : List AppInstallation) where
  first_off :
      names_repository repository i.repositories ≡ false
      → (j : AppInstallation) → i ≡ j
      → Names repository j
      → ⊥
  first_off off j e k =
      unnamed repository j.repositories
        (subst (λ (x : AppInstallation). names_repository repository x.repositories ≡ false) e off)
        k

  FirstNaming-later :
      (o : Option ℕ)
      → names_repository repository i.repositories ≡ false
      → FirstNaming repository installations o
      → FirstNaming repository (i ∷ installations) o
  FirstNaming-later none off h =
      λ j m k. elim m [ inl e ↦ first_off off j e k | inr later ↦ h j later k ]
  FirstNaming-later (some id) off (before, j, after, e, names, same, first) = (
    i ∷ before,
    j,
    after,
    ap (λ l. i ∷ l) e,
    names,
    same,
    λ x m n. elim m [ inl e' ↦ first_off off x e' n | inr later ↦ first x later n ],
  )

installation_of-FirstNaming :
    (repository : Str) (installations : List AppInstallation)
    → FirstNaming repository installations (installation_of repository installations)
unfolding installation_of
installation_of-FirstNaming repository [] = λ i m k. m
installation_of-FirstNaming repository (i ∷ installations) =
    elim (Bool-cases (names_repository repository i.repositories)) [
      | inl on ↦
          rw on ([], i, installations, refl, named repository i.repositories on, refl, λ j m k. m)
      | inr off ↦ rw off (
          FirstNaming-later repository i installations (installation_of repository installations)
            off (installation_of-FirstNaming repository installations))
    ]

-- What `getInstallationID` may return for a list of installations.
abbrev pub Identifies : Str → List AppInstallation → Result ℕ → Type 0
Identifies repository installations (ok id) = FirstNaming repository installations (some id)
Identifies repository installations (err e) = FirstNaming repository installations none

module _ (repository : Str) (installations : List AppInstallation) where
  abbrev missing : Error
  missing =
      failure
        (codes "repository " ++ (repository ++ codes " not found in any GitHub App installation"))

  found :
      (id : ℕ)
      → installation_of repository installations ≡ some id
      → get_installation_id (some installations) repository ≡ ok id
  unfolding get_installation_id
  found id h = rw (h, get_installation_id) refl

  not_found :
      installation_of repository installations ≡ none
      → get_installation_id (some installations) repository ≡ err missing
  unfolding get_installation_id
  not_found h = rw (h, get_installation_id) refl

  Identifies-found :
      (o : Option ℕ)
      → installation_of repository installations ≡ o
      → FirstNaming repository installations o
      → Identifies repository installations (get_installation_id (some installations) repository)
  Identifies-found none h first =
      subst (Identifies repository installations) (sym (not_found h)) first
  Identifies-found (some id) h first =
      subst (Identifies repository installations) (sym (found id h)) first

  -- `getInstallationID` returns the identifier of the first installation that names the repository,
  -- and fails exactly when there is none.
  pub get_installation_id-Identifies :
      Identifies repository installations (get_installation_id (some installations) repository)
  get_installation_id-Identifies =
      Identifies-found (installation_of repository installations) refl
        (installation_of-FirstNaming repository installations)
