-- ===== src/Component/Secrets/Score.antt =====
-- internal/component: how well a secret serves a repository, and what one wildcard counts.
use mintmaker.Base.{
  ℕ, ◌+◌, ◌≤◌, ◌≡◌, refl, sym, subst, ◌⊎◌, inl, inr, true, false, ◌&&◌, none, some, List, [], ◌∷◌,
  Str, contains, split, ltb, length, In, Bool-cases, Option-cases, arith, if◌then◌else◌,
  trim_suffix, codes,
}
use mintmaker.Cluster.Objects.{Secret}
use mintmaker.Component.Secrets.{
  intersection, repositories_of, wildcard_parts, count_parts, best_parts, filter, is_wildcard,
}

-- The code's measure of a secret: two more than the number of the repository's parts if it names the
-- repository, one more than the parts that its best wildcard shares with it, one if it is for the host
-- only, and zero if neither it nor a wildcard of it begins as the repository does.
unfoldable pub score : Str → Secret → ℕ
score repository s = elim (repositories_of s) [
  | none ↦ 1
  | some repositories ↦
      let parts = best_parts repository repositories in
      if contains repositories repository
      then length (split b'/' repository) + 2
      else if ltb 0 parts
      then parts + 1
      else 0
]

length-intersection : (ss ts : List Str) → intersection ss ts ≤ length ss
unfolding intersection
length-intersection [] ts = omega arith
length-intersection (s ∷ ss) [] = omega arith
length-intersection (s ∷ ss) (t ∷ ts) = ground (arith, length-intersection ss ts)

count_parts-bound :
    (repository : Str) (wildcards : List Str) (count : ℕ)
    → count ≤ length (split b'/' repository)
    → count_parts repository wildcards count ≤ length (split b'/' repository)
unfolding count_parts wildcard_parts
count_parts-bound repository [] count h = h
count_parts-bound repository (w ∷ wildcards) count h =
    let i = wildcard_parts repository w in
    let small =
      length-intersection (split b'/' repository) (split b'/' (trim_suffix w (codes "*"))) in
    let raised = count_parts-bound repository wildcards i small in
    let same = count_parts-bound repository wildcards count h in ground arith

best_parts-bound :
    (repository : Str) (repositories : List Str)
    → best_parts repository repositories ≤ length (split b'/' repository)
unfolding best_parts
best_parts-bound repository repositories =
    count_parts-bound repository (filter is_wildcard repositories) 0 (omega arith)

pub score-bound :
    (repository : Str) (s : Secret) → score repository s ≤ length (split b'/' repository) + 2
unfolding score
score-bound repository s = elim (Option-cases (repositories_of s)) [
  | inl e ↦ rw (e, score) (omega arith)
  | inr (rs, e) ↦ rw (e, score) (ground (arith, best_parts-bound repository rs))
]

module _ (repository : Str) (s : Secret) where
  pub score_host : repositories_of s ≡ none → score repository s ≡ 1
  unfolding score
  score_host e = rw (e, score) refl

  pub score_exact :
      (rs : List Str)
      → repositories_of s ≡ some rs
      → contains rs repository ≡ true
      → score repository s ≡ length (split b'/' repository) + 2
  unfolding score
  score_exact rs e on = rw (e, score) (rw on refl)

  pub score_other :
      (rs : List Str)
      → repositories_of s ≡ some rs
      → contains rs repository ≡ false
      → score repository s
        ≡ (let parts = best_parts repository rs in if ltb 0 parts then parts + 1 else 0)
  unfolding score
  score_other rs e off = rw (e, score) (rw off refl)

-- The best count is that of a wildcard, or zero, and no wildcard has a greater one.
abbrev pub IsGreatest : Str → List Str → ℕ → ℕ → Type 0
IsGreatest repository wildcards start best =
    (start ≤ best)
    × ((best ≡ start) ⊎ ((w : Str) × In w wildcards × (wildcard_parts repository w ≡ best)))
    × ((w : Str) → In w wildcards → wildcard_parts repository w ≤ best)

module _ (repository w : Str) (wildcards : List Str) (count : ℕ) where
  counted_more :
      (ltb 0 (wildcard_parts repository w) && ltb count (wildcard_parts repository w)) ≡ true
      → count_parts repository (w ∷ wildcards) count
        ≡ count_parts repository wildcards (wildcard_parts repository w)
  unfolding count_parts
  counted_more e = rw e refl

  counted_same :
      (ltb 0 (wildcard_parts repository w) && ltb count (wildcard_parts repository w)) ≡ false
      → count_parts repository (w ∷ wildcards) count ≡ count_parts repository wildcards count
  unfolding count_parts
  counted_same e = rw e refl

  raise_count :
      count ≤ wildcard_parts repository w
      → (best : ℕ) → IsGreatest repository wildcards (wildcard_parts repository w) best
      → IsGreatest repository (w ∷ wildcards) count best
  raise_count less best (above, place, top) = (
    omega arith,
    inr (elim place [ inl e ↦ (w, inl refl, sym e) | inr (v, k, e) ↦ (v, inr k, e) ]),
    λ v h. elim h [
      | inl e ↦ subst (λ u. wildcard_parts repository u ≤ best) e above
      | inr h' ↦ top v h'
    ],
  )

  keep_count :
      wildcard_parts repository w ≤ count
      → (best : ℕ) → IsGreatest repository wildcards count best
      → IsGreatest repository (w ∷ wildcards) count best
  keep_count less best (above, place, top) =
      let small : wildcard_parts repository w ≤ best = omega arith in
      (
        above,
        elim place [ inl e ↦ inl e | inr (v, k, e) ↦ inr (v, inr k, e) ],
        λ v h. elim h [
          | inl e ↦ subst (λ u. wildcard_parts repository u ≤ best) e small
          | inr h' ↦ top v h'
        ],
      )

count_parts-IsGreatest :
    (repository : Str) (wildcards : List Str) (count : ℕ)
    → IsGreatest repository wildcards count (count_parts repository wildcards count)
count_parts-IsGreatest repository [] count =
    unfold count_parts in (omega arith, inl refl, λ w h. absurd h)
count_parts-IsGreatest repository (w ∷ wildcards) count =
    let i = wildcard_parts repository w in
    let raised = count_parts-IsGreatest repository wildcards i in
    let same = count_parts-IsGreatest repository wildcards count in
    elim (Bool-cases (ltb 0 i && ltb count i)) [
      | inl on ↦
          subst (IsGreatest repository (w ∷ wildcards) count)
            (sym (counted_more repository w wildcards count on))
            (raise_count repository w wildcards count (ground arith)
              (count_parts repository wildcards i) raised)
      | inr off ↦
          subst (IsGreatest repository (w ∷ wildcards) count)
            (sym (counted_same repository w wildcards count off))
            (keep_count repository w wildcards count (ground arith)
              (count_parts repository wildcards count) same)
    ]

-- The parts that a secret's repositories share with the component's repository are the greatest
-- number that one of its wildcards shares, and zero without wildcards.
pub best_parts-IsGreatest :
    (repository : Str) (repositories : List Str)
    → IsGreatest repository (filter is_wildcard repositories) 0 (best_parts repository repositories)
unfolding best_parts
best_parts-IsGreatest repository repositories =
    count_parts-IsGreatest repository (filter is_wildcard repositories) 0
