-- ===== src/Component/Secrets/Grade.antt =====
-- internal/component: how well a secret serves a repository, said of its label without the code's
-- loops and tests, and that `score` is the greatest such grade.
use mintmaker.Base.{
  ℕ, ◌+◌, ◌≤◌, ◌<◌, ◌≡◌, ◌≢◌, refl, sym, ap, ◌∙◌, subst, ◌⊎◌, inl, inr, true, false, Option, none,
  some, List, [], ◌∷◌, ◌++◌, map, Str, codes, contains, split, ltb, length, lookup, In, Bool-cases,
  arith, trim_prefix, trim_suffix, has_suffix, str_eq, str_eq_iff, is_empty,
}
use mintmaker.Cluster.Objects.{Secret}
use mintmaker.Component.Secrets.{
  intersection, repositories_of, trim_slashes, scm_repository, wildcard_parts, best_parts,
  is_wildcard,
}
use mintmaker.Component.Secrets.Score.{
  score, score_host, score_exact, score_other, best_parts-IsGreatest,
}
use mintmaker.Component.Secrets.Entries.{trim_star, has_star, stem_of, contains-In, filter-In}

abbrev pub label_of : Secret → Option Str
label_of s = lookup (codes "appstudio.redhat.com/scm.repository") s.annotations

-- The secret has no label for repositories, or an empty one.
abbrev pub IsHostOnly : Secret → Type 0
IsHostOnly s = (label_of s ≡ none) ⊎ (label_of s ≡ some [])

-- The label that is not empty has this entry between commas, less a slash at either end.
abbrev pub HasEntry : Secret → Str → Type 0
HasEntry s entry =
    (label : Str) × (label_of s ≡ some label)
    × (label ≢ [])
    × In entry (map (λ e. trim_prefix b'/' (trim_suffix e (codes "/"))) (split b',' label))

-- Both lists begin with these parts.
abbrev pub BothBegin : List Str → List Str → List Str → Type 0
BothBegin common ps qs = (p : List Str) × (q : List Str) × (ps ≡ common ++ p) × (qs ≡ common ++ q)

-- A secret may serve a repository in three ways: as one for the whole host, by a wildcard whose path
-- begins with some of the repository's first parts, and by the repository itself. The grade says how
-- well.
abbrev pub HasGrade : Str → Secret → ℕ → Type 0
HasGrade repository s n =
    (IsHostOnly s × (n ≡ 1))
    ⊎ ((stem : Str) × (common : List Str) × HasEntry s (stem ++ codes "*")
        × BothBegin common (split b'/' repository) (split b'/' stem)
        × (0 < length common)
        × (n ≡ length common + 1))
    ⊎ (HasEntry s repository × (n ≡ length (split b'/' repository) + 2))

common_of :
    (ps qs : List Str)
    → (common : List Str) × BothBegin common ps qs × (length common ≡ intersection ps qs)
unfolding intersection
common_of [] qs = ([], ([], qs, refl, refl), refl)
common_of (p ∷ ps) [] = ([], (p ∷ ps, [], refl, refl), refl)
common_of (p ∷ ps) (q ∷ qs) = elim (Bool-cases (str_eq p q)) [
  | inr off ↦ rw off ([], (p ∷ ps, q ∷ qs, refl, refl), refl)
  | inl on ↦
      let (common, (a, b, e, k), n) = common_of ps qs in
      let same : p ≡ q = (str_eq_iff p q).0 on in
      rw on (
        p ∷ common,
        (
          a,
          b,
          ap (λ t. p ∷ t) e,
          ap (λ t. q ∷ t) k ∙ ap (λ (x : Str). x ∷ (common ++ b)) (sym same),
        ),
        omega arith,
      )
]

pub common_below :
    (common p q : List Str) → length common ≤ intersection (common ++ p) (common ++ q)
unfolding intersection
common_below [] p q = omega arith
common_below (x ∷ common) p q =
    rw ((str_eq_iff x x).1 refl) (omega (arith, common_below common p q))

abbrev entries_of : Str → List Str
entries_of label = map (λ e. trim_prefix b'/' (trim_suffix e (codes "/"))) (split b',' label)

module _ (s : Secret) where
  host_none : label_of s ≡ none → repositories_of s ≡ none
  unfolding repositories_of scm_repository
  host_none h = rw (h, repositories_of) refl

  host_empty : label_of s ≡ some [] → repositories_of s ≡ none
  unfolding repositories_of scm_repository
  host_empty h = rw (h, repositories_of) refl

  labelled :
      (label : Str)
      → label_of s ≡ some label
      → is_empty label ≡ false
      → repositories_of s ≡ some (entries_of label)
  unfolding repositories_of scm_repository trim_slashes
  labelled label h e = rw (h, repositories_of, e) refl

  pub IsHostOnly-repositories_of : IsHostOnly s → repositories_of s ≡ none
  IsHostOnly-repositories_of (inl h) = host_none h
  IsHostOnly-repositories_of (inr h) = host_empty h

  -- The repositories that the code reads are the entries of the label.
  repositories_of-cases :
      (IsHostOnly s × (repositories_of s ≡ none))
      ⊎ ((label : Str) × (label_of s ≡ some label)
          × (label ≢ [])
          × (repositories_of s ≡ some (entries_of label)))
  repositories_of-cases = on (label_of s) refl
    where
      on :
          (o : Option Str)
          → label_of s ≡ o
          → (IsHostOnly s × (repositories_of s ≡ none))
            ⊎ ((label : Str) × (label_of s ≡ some label)
                × (label ≢ [])
                × (repositories_of s ≡ some (entries_of label)))
      on none h = inl (inl h, host_none h)
      on (some []) h = inl (inr h, host_empty h)
      on (some (c ∷ label)) h = inr (c ∷ label, h, (λ e. cc), labelled (c ∷ label) h refl)

  entries_same :
      (label other : Str)
      → label_of s ≡ some label
      → label_of s ≡ some other
      → entries_of label ≡ entries_of other
  entries_same label other h k =
      let same : some label ≡ some other = sym h ∙ k in
      ap (λ o. elim o [ none ↦ [] | some l ↦ entries_of l ]) same

  -- An entry is one of the repositories that the code reads.
  pub HasEntry-In :
      (entry : Str)
      → HasEntry s entry
      → (rs : List Str) × (repositories_of s ≡ some rs) × In entry rs
  HasEntry-In entry (label, h, filled, k) =
      (entries_of label, labelled label h (not_empty label filled), k)
    where
      not_empty : (label : Str) → label ≢ [] → is_empty label ≡ false
      not_empty [] f = absurd (f refl)
      not_empty (c ∷ label) f = refl

module _ (repository : Str) (w stem : Str) (star : w ≡ stem ++ codes "*") where
  pub wildcard_stem :
      wildcard_parts repository w ≡ intersection (split b'/' repository) (split b'/' stem)
  unfolding wildcard_parts
  wildcard_stem =
      ap (λ t. intersection (split b'/' repository) (split b'/' (trim_suffix t (codes "*")))) star
      ∙ ap (λ t. intersection (split b'/' repository) (split b'/' t)) (trim_star stem)

  pub wildcard_star : is_wildcard w ≡ true
  unfolding is_wildcard
  wildcard_star = ap (λ t. has_suffix t (codes "*")) star ∙ has_star stem

score_worth :
    (repository : Str) (s : Secret) (rs : List Str)
    → repositories_of s ≡ some rs
    → contains rs repository ≡ false
    → 0 < score repository s
    → (0 < best_parts repository rs) × (score repository s ≡ best_parts repository rs + 1)
score_worth repository s rs e off h = elim (Bool-cases (ltb 0 (best_parts repository rs))) [
  | inl on ↦ (ground arith, score_other repository s rs e off ∙ (rw on refl))
  | inr none' ↦
      let zero' : score repository s ≡ 0 = score_other repository s rs e off ∙ (rw none' refl) in
      absurd (omega arith)
]

module _ (repository : Str) (s : Secret) where
  wildcard-HasGrade :
      (label : Str)
      → label_of s ≡ some label
      → label ≢ []
      → 0 < best_parts repository (entries_of label)
      → HasGrade repository s (best_parts repository (entries_of label) + 1)
  unfolding is_wildcard
  wildcard-HasGrade label h filled worth =
      let (low, place, top) = best_parts-IsGreatest repository (entries_of label) in
      elim place [
        | inl e ↦ absurd (omega arith)
        | inr (w, k, e) ↦
            let (inside, star) = (filter-In is_wildcard (entries_of label) w).0 k in
            let (stem, named) = stem_of w star in
            let (common, both, n) = common_of (split b'/' repository) (split b'/' stem) in
            let same : intersection (split b'/' repository) (split b'/' stem)
                ≡ best_parts repository (entries_of label) =
              sym (wildcard_stem repository w stem named) ∙ e in
            inr (
              inl (
                stem,
                common,
                (label, h, filled, subst (λ t. In t (entries_of label)) named inside),
                both,
                omega arith,
                omega arith,
              ))
      ]

  -- A score above zero is a grade of the secret.
  pub score-HasGrade : 0 < score repository s → HasGrade repository s (score repository s)
  score-HasGrade h = elim (repositories_of-cases s) [
    | inl (host, e) ↦ inl (host, score_host repository s e)
    | inr (label, l, filled, e) ↦ elim (Bool-cases (contains (entries_of label) repository)) [
      | inl on ↦ inr (
          inr (
            (label, l, filled, (contains-In (entries_of label) repository).0 on),
            score_exact repository s (entries_of label) e on,
          ))
      | inr off ↦
          let (worth, same) = score_worth repository s (entries_of label) e off h in
          subst (HasGrade repository s) (sym same) (wildcard-HasGrade label l filled worth)
    ]
  ]
