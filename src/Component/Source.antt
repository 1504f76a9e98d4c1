-- ===== src/Component/Source.antt =====
-- internal/component/component.go: `GetGitURL` and `GetVersions`, which read both models of a
-- Konflux component.
mod Tests
use mintmaker.Base.{
  Bool, true, false, Option, none, some, List, [], ◌∷◌, ◌++◌, Str, codes, is_empty, Result, ok, err,
  failure, if◌then◌else◌, Bool-cases, Option-cases, ◌≡◌, refl, ◌⊎◌, inl, inr,
}
use mintmaker.Cluster.Objects.{AppComponent, GitSource}

-- The URL of the old model, or the empty string.
unfoldable pub source_url : Option GitSource → Str
source_url none = []
source_url (some source) = source.url

unfoldable pub source_revision : Option GitSource → Str
source_revision none = []
source_revision (some source) = source.revision

-- `GetGitURL`, with whether the component is of the old model
unfoldable pub get_git_url : AppComponent → Result (Str × Bool)
unfolding source_url
get_git_url comp =
    if is_empty (source_url comp.git_source)
    then if is_empty comp.git_url
      then err (
          failure
            (codes "component " ++ (comp.name ++ codes " has no git source or empty URL defined")))
      else ok (comp.git_url, false)
    else ok (source_url comp.git_source, true)

-- `GetVersions`
unfoldable pub get_versions : AppComponent → List Str
unfolding source_revision
get_versions comp =
    if is_empty (source_revision comp.git_source)
    then comp.versions
    else source_revision comp.git_source ∷ []

-- The URL is not empty, and the old model comes first; an error means that both models lack it.
abbrev pub IsSource : AppComponent → Result (Str × Bool) → Type 0
IsSource comp (ok (url, true)) = (url ≡ source_url comp.git_source) × (is_empty url ≡ false)
IsSource comp (ok (url, false)) =
    (url ≡ comp.git_url) × (is_empty url ≡ false) × (is_empty (source_url comp.git_source) ≡ true)
IsSource comp (err e) =
    (is_empty (source_url comp.git_source) ≡ true) × (is_empty comp.git_url ≡ true)

-- `GetGitURL` returns the URL of the old model if it has one, else that of the new model if it has
-- one, with the flag that says which, and an error only if neither has one. It never returns an
-- empty URL.
pub get_git_url-IsSource : (comp : AppComponent) → IsSource comp (get_git_url comp)
unfolding get_git_url
get_git_url-IsSource comp = elim (Bool-cases (is_empty (source_url comp.git_source))) [
  | inr off ↦ rw off (refl, off)
  | inl on ↦ elim (Bool-cases (is_empty comp.git_url)) [
    | inl on' ↦ rw (on, on') (on, on')
    | inr off ↦ rw (on, off) (refl, off, on)
  ]
]
