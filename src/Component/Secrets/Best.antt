-- ===== src/Component/Secrets/Best.antt =====
-- internal/component: the loop over the secrets chooses one of the greatest score.
use mintmaker.Base.{
  ℕ, zero, suc, ◌+◌, ◌<◌, ◌≡◌, refl, sym, ap, subst, ◌∙◌, ◌⊎◌, inl, inr, true, false, none, some,
  List, [], ◌∷◌, ◌++◌, Str, contains, split, ltb, length, get_elem?, In, In-append, In-left,
  In-right, Bool-cases, Option-cases, arith, if◌then◌else◌,
}
use mintmaker.Cluster.Objects.{Secret}
use mintmaker.Component.Secrets.{repositories_of, best_parts, Matches, Scan, add_match, scan}
use mintmaker.Component.Secrets.Score.{score, score_host, score_exact, score_other}

pub get_elem?-In : (xs : List Secret) (i : ℕ) (s : Secret) → get_elem? xs i ≡ some s → In s xs
get_elem?-In [] i s h = cc
get_elem?-In (x ∷ xs) zero s h = inl cc
get_elem?-In (x ∷ xs) (suc i) s h = inr (get_elem?-In xs i s h)

module _ (repository : Str) (s : Secret) where
  module _ (index : ℕ) (todo : List Secret) (found : Matches) where
    scan_host :
        repositories_of s ≡ none
        → scan repository index (s ∷ todo) found
          ≡ scan repository
              (index + 1)
              todo
              (record found { host_only = found.host_only ++ s ∷ [] })
    unfolding scan
    scan_host e = rw (e, scan) refl

    scan_exact :
        (rs : List Str)
        → repositories_of s ≡ some rs
        → contains rs repository ≡ true
        → scan repository index (s ∷ todo) found ≡ Scan.exact s
    unfolding scan
    scan_exact rs e on = rw (e, scan) (rw on refl)

    scan_other :
        (rs : List Str)
        → repositories_of s ≡ some rs
        → contains rs repository ≡ false
        → scan repository index (s ∷ todo) found
          ≡ scan repository (index + 1) todo (add_match index (best_parts repository rs) found)
    unfolding scan
    scan_other rs e off = rw (e, scan) (rw off refl)

positive : (n : ℕ) → ltb 0 n ≡ true → 0 < n
positive n h = ground arith

module _ (repository : Str) (all : List Secret) where
  -- What was stored of the secrets is true of them.
  pub record Sound (found : Matches) : Type 0 where
    pub host : (s : Secret) → In s found.host_only → In s all × (score repository s ≡ 1)
    pub entry :
        (i count : ℕ)
        → In (i, count) found.potential
        → (s : Secret) × (get_elem? all i ≡ some s) × (score repository s ≡ count + 1) × (0 < count)

  -- A secret of that score is stored, unless the score is zero.
  abbrev pub Covers : Matches → ℕ → Type 0
  Covers found n =
      (n ≡ 0)
      ⊎ ((n ≡ 1) × ((s : Secret) × In s found.host_only))
      ⊎ ((i : ℕ) × (count : ℕ) × In (i, count) found.potential × (n ≡ count + 1))

  abbrev pub ScanOk : Scan → Type 0
  ScanOk (Scan.exact s) = In s all × (score repository s ≡ length (split b'/' repository) + 2)
  ScanOk (Scan.matches found) =
      Sound found × ((t : Secret) → In t all → Covers found (score repository t))

  Sound-add_host :
      (s : Secret) (found : Matches)
      → In s all
      → score repository s ≡ 1
      → Sound found
      → Sound (record found { host_only = found.host_only ++ s ∷ [] })
  Sound-add_host s found h e sound = record {
    host = λ t k. elim (In-append t found.host_only (s ∷ []) k) [
      | inl old ↦ sound.host t old
      | inr (inl same) ↦ subst (λ u. In u all × (score repository u ≡ 1)) same (h, e)
      | inr (inr none') ↦ absurd none'
    ];
    entry = sound.entry;
  }

  Covers-add_host :
      (s : Secret) (found : Matches) (n : ℕ)
      → Covers found n
      → Covers (record found { host_only = found.host_only ++ s ∷ [] }) n
  Covers-add_host s found n (inl z) = inl z
  Covers-add_host s found n (inr (inl (e, (t, k)))) =
      inr (inl (e, (t, In-left t found.host_only (s ∷ []) k)))
  Covers-add_host s found n (inr (inr k)) = inr (inr k)

  Sound-add_match :
      (index count : ℕ) (s : Secret) (found : Matches)
      → get_elem? all index ≡ some s
      → score repository s ≡ (if ltb 0 count then count + 1 else 0)
      → Sound found
      → Sound (add_match index count found)
  unfolding add_match
  Sound-add_match index count s found h e sound = elim (Bool-cases (ltb 0 count)) [
    | inr off ↦ rw off sound
    | inl on ↦ rw on (record {
      host = sound.host;
      entry = λ i c k. elim (In-append (i, c) found.potential ((index, count) ∷ []) k) [
        | inl old ↦ sound.entry i c old
        | inr (inl same) ↦
            subst
              (λ u.
                (t : Secret) × (get_elem? all u.0 ≡ some t)
                × (score repository t ≡ u.1 + 1)
                × (0 < u.1))
              same (s, h, e ∙ rw on refl, positive count on)
        | inr (inr none') ↦ absurd none'
      ];
    })
  ]

  Covers-add_match :
      (index count : ℕ) (found : Matches) (n : ℕ)
      → Covers found n
      → Covers (add_match index count found) n
  unfolding add_match
  Covers-add_match index count found n (inl z) = inl z
  Covers-add_match index count found n (inr (inl k)) = elim (Bool-cases (ltb 0 count)) [
    | inr off ↦ rw off (inr (inl k))
    | inl on ↦ rw on (inr (inl k))
  ]
  Covers-add_match index count found n (inr (inr (i, c, k, e))) = elim (Bool-cases (ltb 0 count)) [
    | inr off ↦ rw off (inr (inr (i, c, k, e)))
    | inl on ↦ rw on (inr (inr (i, c, In-left (i, c) found.potential ((index, count) ∷ []) k, e)))
  ]

  Covers-new :
      (index count : ℕ) (found : Matches)
      → Covers (add_match index count found) (if ltb 0 count then count + 1 else 0)
  unfolding add_match
  Covers-new index count found = elim (Bool-cases (ltb 0 count)) [
    | inr off ↦ rw off (inl refl)
    | inl on ↦ rw on (
        inr (
          inr (
            index,
            count,
            In-right (index, count) found.potential ((index, count) ∷ []) (inl refl),
            refl,
          )))
  ]

  abbrev IsRest : ℕ → List Secret → Type 0
  IsRest index todo = (k : ℕ) → get_elem? all (index + k) ≡ get_elem? todo k

  IsRest-next :
      (index : ℕ) (s : Secret) (todo : List Secret)
      → IsRest index (s ∷ todo)
      → IsRest (index + 1) todo
  IsRest-next index s todo h k =
      let e : index + suc k ≡ index + 1 + k = omega arith in
      subst (λ n. get_elem? all n ≡ get_elem? todo k) e (h (suc k))

  IsRest-here :
      (index : ℕ) (s : Secret) (todo : List Secret)
      → IsRest index (s ∷ todo)
      → get_elem? all index ≡ some s
  IsRest-here index s todo h =
      let e : index + 0 ≡ index = omega arith in subst (λ n. get_elem? all n ≡ some s) e (h 0)

  covered_host :
      (s : Secret) (todo : List Secret) (found : Matches)
      → score repository s ≡ 1
      → (t : Secret) → In t (s ∷ todo) ⊎ Covers found (score repository t)
      → In t todo
        ⊎ Covers (record found { host_only = found.host_only ++ s ∷ [] }) (score repository t)
  covered_host s todo found e t (inl (inl same)) = inr (
      inr (
        inl (
          ap (score repository) (sym same) ∙ e,
          (s, In-right s found.host_only (s ∷ []) (inl refl)),
        )))
  covered_host s todo found e t (inl (inr k)) = inl k
  covered_host s todo found e t (inr k) = inr (Covers-add_host s found (score repository t) k)

  covered_match :
      (index parts : ℕ) (s : Secret) (todo : List Secret) (found : Matches)
      → score repository s ≡ (if ltb 0 parts then parts + 1 else 0)
      → (t : Secret) → In t (s ∷ todo) ⊎ Covers found (score repository t)
      → In t todo ⊎ Covers (add_match index parts found) (score repository t)
  covered_match index parts s todo found e t (inl (inl same)) = inr (
      subst (Covers (add_match index parts found)) (sym (ap (score repository) (sym same) ∙ e))
        (Covers-new index parts found))
  covered_match index parts s todo found e t (inl (inr k)) = inl k
  covered_match index parts s todo found e t (inr k) =
      inr (Covers-add_match index parts found (score repository t) k)

  pub scan-ScanOk :
      (index : ℕ) (todo : List Secret) (found : Matches)
      → IsRest index todo
      → Sound found
      → ((t : Secret) → In t all → In t todo ⊎ Covers found (score repository t))
      → ScanOk (scan repository index todo found)
  scan-ScanOk index [] found rest sound covered =
      unfold scan in (sound, λ t h. elim (covered t h) [ inl k ↦ absurd k | inr k ↦ k ])
  scan-ScanOk index (s ∷ todo) found rest sound covered =
      let here = IsRest-here index s todo rest in
      let next = IsRest-next index s todo rest in
      elim (Option-cases (repositories_of s)) [
        | inl e ↦
            let added =
              Sound-add_host s found (get_elem?-In all index s here) (score_host repository s e)
                sound in
            subst ScanOk (sym (scan_host repository s index todo found e)) (
              scan-ScanOk (index + 1) todo (record found { host_only = found.host_only ++ s ∷ [] })
                next added
                (λ t h. covered_host s todo found (score_host repository s e) t (covered t h)))
        | inr (rs, e) ↦ elim (Bool-cases (contains rs repository)) [
          | inl on ↦
              subst ScanOk (sym (scan_exact repository s index todo found rs e on))
                (get_elem?-In all index s here, score_exact repository s rs e on)
          | inr off ↦
              let parts = best_parts repository rs in
              let worth = score_other repository s rs e off in
              subst ScanOk (sym (scan_other repository s index todo found rs e off)) (
                scan-ScanOk (index + 1) todo (add_match index parts found) next
                  (Sound-add_match index parts s found here worth sound)
                  (λ t h. covered_match index parts s todo found worth t (covered t h)))
        ]
      ]
