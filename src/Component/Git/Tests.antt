-- ===== src/Component/Git/Tests.antt =====
-- Examples of the methods that the platforms share.
use mintmaker.Base.{Bool, Str, [], ◌∷◌, codes, str_eq, Result, ok, ◌≡◌, ◌≢◌, ◌↔◌, In}
use mintmaker.Component.Git.{get_branches, forgejo_owner_and_repo, github_owner_and_repo}
use mintmaker.Component.Git.Branches.{ReturnsFor, get_branches-ReturnsFor}
use mintmaker.Component.Git.Owner.{owner_and_repo-IsCutAt}
use mintmaker.Component.Git.Parts.{IsCutAt}
use mintmaker.Component.Samples.{base}

abbrev only_main : Result (Str → Bool)
only_main = ok (str_eq (codes "main"))

get_branches-ReturnsFor_example :
    ReturnsFor
      (base (codes "a") (codes "main" ∷ codes "v1" ∷ [])).old_crd_version
      (ok (codes "dev"))
      only_main
      (base (codes "a") (codes "main" ∷ codes "v1" ∷ [])).versions
      (get_branches
        (base (codes "a") (codes "main" ∷ codes "v1" ∷ []))
        (ok (codes "dev"))
        only_main)
get_branches-ReturnsFor_example =
    get_branches-ReturnsFor (base (codes "a") (codes "main" ∷ codes "v1" ∷ [])) (ok (codes "dev"))
      only_main

owner_and_repo-IsCutAt_example :
    ((github_owner_and_repo (codes "org/repo") ≡ ok (codes "org", codes "repo"))
      ↔ (IsCutAt b'/' (codes "org/repo") (codes "org") (codes "repo") × (¬ In b'/' (codes "repo"))))
    × ((forgejo_owner_and_repo (codes "org/repo") ≡ ok (codes "org", codes "repo")) ↔ (
        IsCutAt b'/' (codes "org/repo") (codes "org") (codes "repo")
        × (codes "org" ≢ [])
        × (codes "repo" ≢ [])))
owner_and_repo-IsCutAt_example =
    owner_and_repo-IsCutAt (codes "org/repo") (codes "org") (codes "repo")
