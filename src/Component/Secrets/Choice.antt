-- ===== src/Component/Secrets/Choice.antt =====
-- internal/component: which secret `GetRPMActivationKey` and `lookupSecret` choose.
use mintmaker.Base.{
  ℕ, ◌≤◌, ◌<◌, ◌≡◌, ◌↔◌, refl, sym, subst, ◌⊎◌, inl, inr, true, false, Option, none, some, List, [],
  ◌∷◌, Str, ltb, Bool-cases, get_elem?, In, arith, ap,
}
use mintmaker.Cluster.Objects.{Secret}
use mintmaker.Component.Secrets.{Matches, Scan, scan, best_match, pick, choose}
use mintmaker.Component.Secrets.Score.{score, score-bound}
use mintmaker.Component.Secrets.Best.{Sound, Covers, ScanOk, scan-ScanOk, get_elem?-In}

-- The best entry is an entry or the start, and no entry has a greater count.
abbrev IsTop : List (ℕ × ℕ) → ℕ × ℕ → ℕ × ℕ → Type 0
IsTop entries start best =
    ((best ≡ start) ⊎ In best entries)
    × (start.1 ≤ best.1)
    × ((i m : ℕ) → In (i, m) entries → m ≤ best.1)

module _ (i count : ℕ) (entries : List (ℕ × ℕ)) (start : ℕ × ℕ) where
  best_match_better :
      ltb start.1 count ≡ true
      → best_match ((i, count) ∷ entries) start ≡ best_match entries (i, count)
  unfolding best_match
  best_match_better e = rw e refl

  best_match_same :
      ltb start.1 count ≡ false → best_match ((i, count) ∷ entries) start ≡ best_match entries start
  unfolding best_match
  best_match_same e = rw e refl

  IsTop-better :
      (best : ℕ × ℕ)
      → start.1 ≤ count
      → IsTop entries (i, count) best
      → IsTop ((i, count) ∷ entries) start best
  IsTop-better best less (place, above, top) = (
    inr (elim place [ inl e ↦ inl (sym e) | inr k ↦ inr k ]),
    omega arith,
    λ k m h. elim h [ inl e ↦ subst (λ u. u.1 ≤ best.1) e above | inr h' ↦ top k m h' ],
  )

  IsTop-same :
      (best : ℕ × ℕ)
      → count ≤ start.1
      → IsTop entries start best
      → IsTop ((i, count) ∷ entries) start best
  IsTop-same best less (place, above, top) =
      let small : count ≤ best.1 = omega arith in
      (
        elim place [ inl e ↦ inl e | inr k ↦ inr (inr k) ],
        above,
        λ k m h. elim h [ inl e ↦ subst (λ u. u.1 ≤ best.1) e small | inr h' ↦ top k m h' ],
      )

best_match-IsTop :
    (entries : List (ℕ × ℕ)) (start : ℕ × ℕ) → IsTop entries start (best_match entries start)
best_match-IsTop [] start = unfold best_match in (inl refl, omega arith, λ i m h. absurd h)
best_match-IsTop ((i, count) ∷ entries) start = elim (Bool-cases (ltb start.1 count)) [
  | inl on ↦
      subst (IsTop ((i, count) ∷ entries) start) (sym (best_match_better i count entries start on))
        (IsTop-better i count entries start (best_match entries (i, count)) (ground arith)
          (best_match-IsTop entries (i, count)))
  | inr off ↦
      subst (IsTop ((i, count) ∷ entries) start) (sym (best_match_same i count entries start off)) (
        IsTop-same i count entries start (best_match entries start) (ground arith)
          (best_match-IsTop entries start))
]

-- The secret is of those listed and has a score above zero, and none has a greater one; without one,
-- those listed have the score zero.
abbrev pub IsTopScored : Str → List Secret → Option Secret → Type 0
IsTopScored repository secrets none = (t : Secret) → In t secrets → score repository t ≡ 0
IsTopScored repository secrets (some s) =
    In s secrets
    × (0 < score repository s)
    × ((t : Secret) → In t secrets → score repository t ≤ score repository s)

module _ (order : List (ℕ × ℕ) → List (ℕ × ℕ))
    (order_In : (entries : List (ℕ × ℕ)) (entry : ℕ × ℕ)
      → In entry (order entries) ↔ In entry entries)
    (repository : Str) (secrets : List Secret) where
  chosen_entry :
      (hosts : List Secret) (entries : List (ℕ × ℕ)) (best : ℕ × ℕ)
      → let found : Matches = record { host_only = hosts; potential = entries } in
        Sound repository secrets found
        → ((t : Secret) → In t secrets → Covers repository secrets found (score repository t))
        → In best entries
        → ((i m : ℕ) → In (i, m) entries → m ≤ best.1)
        → IsTopScored repository secrets (get_elem? secrets best.0)
  chosen_entry hosts entries best sound covered k top =
      let (s, got, worth, above) = sound.entry best.0 best.1 k in
      subst (IsTopScored repository secrets) (sym got) (
        get_elem?-In secrets best.0 s got,
        omega arith,
        λ t h. elim (covered t h) [
          | inl z ↦ omega arith
          | inr (inl (e, host)) ↦ omega arith
          | inr (inr (i, m, place, e)) ↦ omega (arith, top i m place)
        ],
      )

  pick_matches :
      (hosts : List Secret) (entries : List (ℕ × ℕ))
      → let found : Matches = record { host_only = hosts; potential = entries } in
        Sound repository secrets found
        → ((t : Secret) → In t secrets → Covers repository secrets found (score repository t))
        → IsTopScored repository secrets (pick order secrets (Scan.matches found))
  unfolding pick
  pick_matches [] [] sound covered = λ t h. elim (covered t h) [
    | inl z ↦ z
    | inr (inl (e, (s, k))) ↦ absurd k
    | inr (inr (i, m, k, e)) ↦ absurd k
  ]
  pick_matches (s ∷ hosts) [] sound covered =
      let (k, e) = sound.host s (inl refl) in
      (
        k,
        omega arith,
        λ t h. elim (covered t h) [
          | inl z ↦ omega arith
          | inr (inl (e', host)) ↦ omega arith
          | inr (inr (i, m, place, e')) ↦ absurd place
        ],
      )
  pick_matches hosts ((i, count) ∷ entries) sound covered =
      let all = (i, count) ∷ entries in
      let (place, above, top) = best_match-IsTop (order all) (0, 0) in
      let top' : (j m : ℕ) → In (j, m) all → m ≤ (best_match (order all) (0, 0)).1 =
        λ j m h. top j m ((order_In all (j, m)).1 h) in
      let (s, got, worth, positive) = sound.entry i count (inl refl) in
      let best = best_match (order all) (0, 0) in
      elim place [
        | inl e ↦
            let zero' : best.1 ≡ 0 = ap (λ u. u.1) e in
            absurd (omega (arith, top' i count (inl refl), zero', positive))
        | inr k ↦ chosen_entry hosts all best sound covered ((order_In all best).0 k) top'
      ]

  pick-IsTopScored :
      (found : Scan)
      → ScanOk repository secrets found
      → IsTopScored repository secrets (pick order secrets found)
  pick-IsTopScored (Scan.exact s) (k, e) =
      unfold pick in (k, omega arith, λ t h. omega (arith, score-bound repository t, e))
  pick-IsTopScored (Scan.matches found) (sound, covered) =
      pick_matches found.host_only found.potential sound covered

  pub choose-IsTopScored : IsTopScored repository secrets (choose order repository secrets)
  unfolding choose
  choose-IsTopScored =
      let start : Matches = record { host_only = []; potential = [] } in
      pick-IsTopScored (scan repository 0 secrets start) (
        scan-ScanOk repository secrets 0 secrets start (λ k. ap (get_elem? secrets) (omega arith))
          (record { host = λ s h. absurd h; entry = λ i c h. absurd h }) (λ t h. inl h))
