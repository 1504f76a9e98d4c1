-- ===== src/Component/Secrets/Serves.antt =====
-- internal/component: the chosen secret, by the grades of the secrets.
use mintmaker.Base.{
  ℕ, ◌+◌, ◌≤◌, ◌<◌, ◌≡◌, ◌↔◌, refl, sym, ◌∙◌, subst, inl, inr, true, Option, none, some, List, ◌++◌,
  Str, codes, contains, split, ltb, length, length-append, In, Bool-cases, arith,
}
use mintmaker.Cluster.Objects.{Secret}
use mintmaker.Component.Secrets.{
  intersection, repositories_of, best_parts, filter, is_wildcard, choose,
}
use mintmaker.Component.Secrets.Score.{
  score, score_host, score_exact, score_other, best_parts-IsGreatest,
}
use mintmaker.Component.Secrets.Grade.{
  BothBegin, HasGrade, common_below, IsHostOnly-repositories_of, HasEntry-In, wildcard_stem,
  wildcard_star, score-HasGrade,
}
use mintmaker.Component.Secrets.Entries.{contains-In, filter-In}
use mintmaker.Component.Secrets.Choice.{IsTopScored, choose-IsTopScored}

common_shared :
    (common ps qs : List Str) → BothBegin common ps qs → length common ≤ intersection ps qs
common_shared common ps qs (p, q, e, k) =
    let below = common_below common p q in
    subst (λ t. length common ≤ intersection t qs) (sym e)
      (subst (λ t. length common ≤ intersection (common ++ p) t) (sym k) below)

common_short : (common ps qs : List Str) → BothBegin common ps qs → length common ≤ length ps
common_short common ps qs (p, q, e, k) =
    subst (λ t. length common ≤ length t) (sym e) (omega (arith, length-append {0} common p))

module _ (repository : Str) (s : Secret) where
  -- The best wildcard shares at least the parts that this one shares.
  best_parts_shared :
      (rs : List Str) (stem : Str) (common : List Str)
      → In (stem ++ codes "*") rs
      → BothBegin common (split b'/' repository) (split b'/' stem)
      → length common ≤ best_parts repository rs
  best_parts_shared rs stem common k both =
      let w : Str = stem ++ codes "*" in
      let inside : In w (filter is_wildcard rs) =
        (filter-In is_wildcard rs w).1 (k, wildcard_star repository w stem refl) in
      let below = (best_parts-IsGreatest repository rs).2 w inside in
      omega (
        arith,
        below,
        wildcard_stem repository w stem refl,
        common_shared common (split b'/' repository) (split b'/' stem) both,
      )

  shared_score :
      (rs : List Str) (n : ℕ)
      → repositories_of s ≡ some rs
      → 0 < n
      → n ≤ best_parts repository rs
      → n ≤ length (split b'/' repository)
      → n + 1 ≤ score repository s
  shared_score rs n e positive less short = elim (Bool-cases (contains rs repository)) [
    | inl on ↦ omega (arith, score_exact repository s rs e on)
    | inr off ↦
        let some_parts : ltb 0 (best_parts repository rs) ≡ true = ground arith in
        let worth : score repository s ≡ best_parts repository rs + 1 =
          score_other repository s rs e off ∙ (rw some_parts refl) in
        omega arith
  ]

  HasGrade-score : (n : ℕ) → HasGrade repository s n → n ≤ score repository s
  HasGrade-score n (inl (host, e)) =
      omega (arith, score_host repository s (IsHostOnly-repositories_of s host))
  HasGrade-score n (inr (inl (stem, common, entry, both, positive, e))) =
      let (rs, r, k) = HasEntry-In s (stem ++ codes "*") entry in
      let above =
        shared_score rs (length common) r positive (best_parts_shared rs stem common k both)
          (common_short common (split b'/' repository) (split b'/' stem) both) in
      omega arith
  HasGrade-score n (inr (inr (entry, e))) =
      let (rs, r, k) = HasEntry-In s repository entry in
      omega (arith, score_exact repository s rs r ((contains-In rs repository).1 k))

  HasGrade-positive : (n : ℕ) → HasGrade repository s n → 0 < n
  HasGrade-positive n (inl (host, e)) = omega arith
  HasGrade-positive n (inr (inl (stem, common, entry, both, positive, e))) = omega arith
  HasGrade-positive n (inr (inr (entry, e))) = omega arith

-- The secret is a candidate that serves the repository with some grade, and no candidate serves it
-- with a greater one; without a secret, no candidate serves it at all.
abbrev pub IsBest : Str → (Secret → Type 0) → Option Secret → Type 0
IsBest repository IsCandidate none =
    (t : Secret) → IsCandidate t → (m : ℕ) → HasGrade repository t m → ⊥
IsBest repository IsCandidate (some s) =
    IsCandidate s
    × (n : ℕ) × HasGrade repository s n
    × ((t : Secret) → IsCandidate t → (m : ℕ) → HasGrade repository t m → m ≤ n)

IsTopScored-IsBest :
    (repository : Str) (secrets : List Secret) (chosen : Option Secret)
    → IsTopScored repository secrets chosen
    → IsBest repository (λ t. In t secrets) chosen
IsTopScored-IsBest repository secrets none h = λ t k m g. no_grade t m (h t k) g
  where
    no_grade : (t : Secret) (m : ℕ) → score repository t ≡ 0 → HasGrade repository t m → ⊥
    no_grade t m z g =
        omega (arith, HasGrade-score repository t m g, HasGrade-positive repository t m g)
IsTopScored-IsBest repository secrets (some s) (k, positive, top) = (
  k,
  score repository s,
  score-HasGrade repository s positive,
  λ t h m g. omega (arith, top t h, HasGrade-score repository t m g),
)

-- In whatever order Go ranges over the map of matches, the loop over the secrets chooses one of
-- those listed that serves the repository, and none of them serves it with a greater grade; it
-- chooses none exactly if none of them serves it. The repository's own entry is the best, then a
-- wildcard, the better the more of the repository's first parts its path begins with, and a secret
-- for the whole host is the last resort. A wildcard serves each repository whose first part it shares,
-- also where its further parts differ.
pub choose-IsBest :
    (order : List (ℕ × ℕ) → List (ℕ × ℕ)) (repository : Str) (secrets : List Secret)
    → ((entries : List (ℕ × ℕ)) (entry : ℕ × ℕ) → In entry (order entries) ↔ In entry entries)
    → IsBest repository (λ t. In t secrets) (choose order repository secrets)
choose-IsBest order repository secrets order_In =
    IsTopScored-IsBest repository secrets (choose order repository secrets)
      (choose-IsTopScored order order_In repository secrets)
