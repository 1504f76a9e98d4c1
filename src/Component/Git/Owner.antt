-- ===== src/Component/Git/Owner.antt =====
-- internal/component: the owner and the name of a repository on Forgejo and on GitHub.
use mintmaker.Base.{
  false, Option, none, some, List, [], ◌∷◌, ◌++◌, Str, cut, split, is_empty, ok, ◌≡◌, ◌≢◌, ◌↔◌, In,
  refl, ap, ◌∙◌, subst,
}
use mintmaker.Component.Git.Parts.{
  Cuts, IsCutAt, cut-Cuts, cons_nil, cut_at, split_at, split_free, split_two,
}
use mintmaker.Component.Git.{
  github_owner_and_repo, forgejo_owner_and_repo, two_parts, owner_before, not_owned,
  invalid_repository,
}

two_parts_only :
    (repository : Str) (parts : List Str) (owner repo : Str)
    → two_parts repository parts ≡ ok (owner, repo)
    → parts ≡ owner ∷ repo ∷ []
unfolding two_parts invalid_repository
two_parts_only repository [] owner repo h = cc
two_parts_only repository (a ∷ []) owner repo h = cc
two_parts_only repository (a ∷ b ∷ []) owner repo h = cc
two_parts_only repository (a ∷ b ∷ c ∷ parts) owner repo h = cc

module _ (repository owner repo : Str) where
  github_parts :
      github_owner_and_repo repository ≡ ok (owner, repo)
      → IsCutAt b'/' repository owner repo × (¬ In b'/' repo)
  unfolding github_owner_and_repo
  github_parts h =
      split_two b'/' repository owner repo
        (two_parts_only repository (split b'/' repository) owner repo h)

  github_splits :
      IsCutAt b'/' repository owner repo × (¬ In b'/' repo)
      → github_owner_and_repo repository ≡ ok (owner, repo)
  unfolding github_owner_and_repo two_parts
  github_splits ((same, owned), named) =
      rw (same, split_at b'/' owner repo owned, split_free b'/' repo named) refl

  owner_before_parts :
      (o : Option (Str × Str))
      → Cuts b'/' repository o
      → owner_before repository o ≡ ok (owner, repo)
      → IsCutAt b'/' repository owner repo × (owner ≢ []) × (repo ≢ [])
  unfolding owner_before not_owned
  owner_before_parts none h e = cc
  owner_before_parts (some ([], r)) h e = cc
  owner_before_parts (some (c ∷ a, [])) h e = cc
  owner_before_parts (some (c ∷ a, d ∷ r)) (h, k, free) e =
      let first : (c ∷ a) ≡ owner = cc in
      let second : (d ∷ r) ≡ repo = cc in
      (
        (
          k ∙ (ap (λ x. x ++ b'/' ∷ d ∷ r) first ∙ ap (λ x. owner ++ b'/' ∷ x) second),
          subst (λ x. ¬ In b'/' x) first free,
        ),
        (λ empty. cons_nil (first ∙ empty)),
        (λ empty. cons_nil (second ∙ empty)),
      )

  forgejo_parts :
      forgejo_owner_and_repo repository ≡ ok (owner, repo)
      → IsCutAt b'/' repository owner repo × (owner ≢ []) × (repo ≢ [])
  unfolding forgejo_owner_and_repo
  forgejo_parts h = owner_before_parts (cut b'/' repository) (cut-Cuts b'/' repository) h

  forgejo_splits :
      IsCutAt b'/' repository owner repo × (owner ≢ []) × (repo ≢ [])
      → forgejo_owner_and_repo repository ≡ ok (owner, repo)
  unfolding forgejo_owner_and_repo owner_before
  forgejo_splits ((same, free), owned, named) =
      rw (same, cut_at b'/' owner repo free, is_empty_other owner owned, is_empty_other repo named)
        refl
    where
      is_empty_other : (s : Str) → s ≢ [] → is_empty s ≡ false
      is_empty_other [] h = absurd (h refl)
      is_empty_other (c ∷ s) h = refl

  -- GitHub's rule finds an owner and a name exactly where the repository is these two with a slash
  -- between them and no other slash. Forgejo's finds them exactly where the repository is these two
  -- with a slash between them, neither is empty, and no slash is in the owner.
  pub owner_and_repo-IsCutAt :
      ((github_owner_and_repo repository ≡ ok (owner, repo))
        ↔ (IsCutAt b'/' repository owner repo × (¬ In b'/' repo)))
      × ((forgejo_owner_and_repo repository ≡ ok (owner, repo))
          ↔ (IsCutAt b'/' repository owner repo × (owner ≢ []) × (repo ≢ [])))
  owner_and_repo-IsCutAt = ((github_parts, github_splits), (forgejo_parts, forgejo_splits))
