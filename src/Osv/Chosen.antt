-- ===== src/Osv/Chosen.antt =====
-- tools/osv-generator/generator.go: which advisories the two lists have.
use mintmaker.Base.{
  ℕ, zero, suc, ◌+◌, ◌<◌, ◌≤◌, Bool, true, false, List, [], ◌∷◌, ◌++◌, Str, codes, contains_str,
  ltb, Result, ok, err, Error, ◌==◌, length, length-append, take, append_assoc, append-nil, ◌≡◌,
  ◌⊎◌, refl, sym, ap, ◌∙◌, subst, Bool-cases, Result-cases, inl, inr, arith,
}
use mintmaker.Osv.Advisories.{
  Listed, take_recent, take_modified, get_advisory_list_by_modified, get_advisory_list_by_releases,
}

-- The names of the RHSA advisories, in order.
abbrev named_if : Bool → Str → List Str → List Str
named_if true name names = name ∷ names
named_if false name names = names

abbrev pub rhsa_names : List Listed → List Str
rhsa_names [] = []
rhsa_names (r ∷ records) =
    named_if (contains_str r.advisory (codes "rhsa-")) r.advisory (rhsa_names records)

module _ (limit : ℕ) (r : Listed) (records : List Listed) (found : List Str) where
  modified_skip :
      contains_str r.advisory (codes "rhsa-") ≡ false
      → take_modified limit (r ∷ records) found ≡ take_modified limit records found
  unfolding take_modified
  modified_skip h = rw (h, take_modified) refl

  modified_stop :
      contains_str r.advisory (codes "rhsa-") ≡ true
      → (length (found ++ r.advisory ∷ []) == limit) ≡ true
      → take_modified limit (r ∷ records) found ≡ found ++ r.advisory ∷ []
  unfolding take_modified
  modified_stop h s = rw (h, take_modified, s) refl

  modified_more :
      contains_str r.advisory (codes "rhsa-") ≡ true
      → (length (found ++ r.advisory ∷ []) == limit) ≡ false
      → take_modified limit (r ∷ records) found
        ≡ take_modified limit records (found ++ r.advisory ∷ [])
  unfolding take_modified
  modified_more h s = rw (h, take_modified, s) refl

module _ (found : List Str) (name : Str) where
  last_one : (length (found ++ name ∷ []) == length found + 1) ≡ true
  last_one = ground (arith, length-append found (name ∷ []))

  not_last : (left : ℕ) → (length (found ++ name ∷ []) == length found + suc (suc left)) ≡ false
  not_last left = ground (arith, length-append found (name ∷ []))

  one_less : (left : ℕ) → length found + suc (suc left) ≡ length (found ++ name ∷ []) + suc left
  one_less left = omega (arith, length-append {0} found (name ∷ []))

take_rhsa :
    (r : Listed) (records : List Listed) (left : ℕ) (found : List Str)
    → contains_str r.advisory (codes "rhsa-") ≡ true
    → ((left' : ℕ)
        → take_modified
            (length (found ++ r.advisory ∷ []) + suc left')
            records
            (found ++ r.advisory ∷ [])
          ≡ (found ++ r.advisory ∷ []) ++ take (suc left') (rhsa_names records))
    → take_modified (length found + suc left) (r ∷ records) found
      ≡ found ++ take (suc left) (r.advisory ∷ rhsa_names records)
take_rhsa r records zero found on next =
    modified_stop (length found + 1) r records found on (last_one found r.advisory)
take_rhsa r records (suc left) found on next =
    modified_more (length found + suc (suc left)) r records found on
      (not_last found r.advisory left)
    ∙ ap (λ n. take_modified n records (found ++ r.advisory ∷ [])) (one_less found r.advisory left)
    ∙ next left
    ∙ append_assoc found (r.advisory ∷ []) (take (suc left) (rhsa_names records))

take_modified-take :
    (records : List Listed) (left : ℕ) (found : List Str)
    → take_modified (length found + suc left) records found
      ≡ found ++ take (suc left) (rhsa_names records)
take_modified-take [] left found = unfold take_modified in sym (append-nil found)
take_modified-take (r ∷ records) left found =
    elim (Bool-cases (contains_str r.advisory (codes "rhsa-"))) [
      | inr off ↦
          modified_skip (length found + suc left) r records found off
          ∙ take_modified-take records left found
          ∙ ap (λ b. found ++ take (suc left) (named_if b r.advisory (rhsa_names records)))
              (sym off)
      | inl on ↦
          take_rhsa r records left found on
            (λ left'. take_modified-take records left' (found ++ r.advisory ∷ []))
          ∙ ap (λ b. found ++ take (suc left) (named_if b r.advisory (rhsa_names records))) (sym on)
    ]

-- `getAdvisoryListByModified` returns the first `limit` of the RHSA advisories in the order of the
-- sort, all of them if there are fewer, for a limit above zero.
pub get_advisory_list_by_modified-take :
    (sort : List Listed → List Listed) (limit : ℕ) (records : List Listed)
    → 0 < limit
    → get_advisory_list_by_modified sort limit (ok records)
      ≡ ok (take limit (rhsa_names (sort records)))
unfolding get_advisory_list_by_modified
get_advisory_list_by_modified-take sort zero records h = absurd (none_below h)
  where
    none_below : 0 < 0 → ⊥
    none_below k = omega arith
get_advisory_list_by_modified-take sort (suc left) records h =
    let none_found : suc left ≡ 0 + suc left = omega arith in
    ap (λ n. ok (take_modified n (sort records) [])) none_found
    ∙ ap ok (take_modified-take (sort records) left [])

-- The date is read and it is not before the threshold.
abbrev pub AreRecent : (Str → Result ℕ) → ℕ → List Listed → Type 0
AreRecent parse threshold [] = Unit
AreRecent parse threshold (r ∷ records) =
    ((date : ℕ) × (parse r.date ≡ ok date) × (threshold ≤ date)) × AreRecent parse threshold records

abbrev pub names_of : List Listed → List Str
names_of [] = []
names_of (r ∷ records) = r.advisory ∷ names_of records

-- The names of the recent records at the beginning, and that of the first older one, after those that
-- were found; an error means that the recent records end at one whose date cannot be read.
abbrev pub ReturnsRecent :
    (Str → Result ℕ) → ℕ → List Listed → List Str → Result (List Str) → Type 0
ReturnsRecent parse threshold records found (ok names) =
    (AreRecent parse threshold records × (names ≡ found ++ names_of records))
    ⊎ ((before : List Listed) × (r : Listed) × (after : List Listed) × (date : ℕ) × (records
          ≡ before ++ r ∷ after)
        × AreRecent parse threshold before
        × (parse r.date ≡ ok date)
        × (date < threshold)
        × (names ≡ found ++ (names_of before ++ r.advisory ∷ [])))
ReturnsRecent parse threshold records found (err e) =
    (before : List Listed) × (r : Listed) × (after : List Listed) × (records ≡ before ++ r ∷ after)
    × AreRecent parse threshold before
    × (parse r.date ≡ err e)

module _ (parse : Str → Result ℕ) (threshold : ℕ) (r : Listed) (records : List Listed)
    (found : List Str) where
  recent_failed :
      (e : Error) → parse r.date ≡ err e → take_recent parse threshold (r ∷ records) found ≡ err e
  unfolding take_recent
  recent_failed e h = rw (h, take_recent) refl

  recent_stop :
      (date : ℕ)
      → parse r.date ≡ ok date
      → ltb date threshold ≡ true
      → take_recent parse threshold (r ∷ records) found ≡ ok (found ++ r.advisory ∷ [])
  unfolding take_recent
  recent_stop date h s = rw (h, take_recent, s) refl

  recent_more :
      (date : ℕ)
      → parse r.date ≡ ok date
      → ltb date threshold ≡ false
      → take_recent parse threshold (r ∷ records) found
        ≡ take_recent parse threshold records (found ++ r.advisory ∷ [])
  unfolding take_recent
  recent_more date h s = rw (h, take_recent, s) refl

  ReturnsRecent-more :
      (date : ℕ) (result : Result (List Str))
      → parse r.date ≡ ok date
      → threshold ≤ date
      → ReturnsRecent parse threshold records (found ++ r.advisory ∷ []) result
      → ReturnsRecent parse threshold (r ∷ records) found result
  ReturnsRecent-more date (ok names) h l (inl (recent, same)) =
      inl (((date, h, l), recent), same ∙ append_assoc found (r.advisory ∷ []) (names_of records))
  ReturnsRecent-more date (ok names) h l (inr (before, x, after, d, e, recent, k, old, same)) =
      inr (
        r ∷ before,
        x,
        after,
        d,
        ap (λ t. r ∷ t) e,
        ((date, h, l), recent),
        k,
        old,
        same ∙ append_assoc found (r.advisory ∷ []) (names_of before ++ x.advisory ∷ []),
      )
  ReturnsRecent-more date (err e) h l (before, x, after, same, recent, k) =
      (r ∷ before, x, after, ap (λ t. r ∷ t) same, ((date, h, l), recent), k)

take_recent-ReturnsRecent :
    (parse : Str → Result ℕ) (threshold : ℕ) (records : List Listed) (found : List Str)
    → ReturnsRecent parse threshold records found (take_recent parse threshold records found)
take_recent-ReturnsRecent parse threshold [] found =
    unfold take_recent in inl (tt, sym (append-nil found))
take_recent-ReturnsRecent parse threshold (r ∷ records) found = elim (Result-cases (parse r.date)) [
  | inr (e, h) ↦
      subst (ReturnsRecent parse threshold (r ∷ records) found)
        (sym (recent_failed parse threshold r records found e h)) ([], r, records, refl, tt, h)
  | inl (date, h) ↦ elim (Bool-cases (ltb date threshold)) [
    | inl old ↦
        subst (ReturnsRecent parse threshold (r ∷ records) found)
          (sym (recent_stop parse threshold r records found date h old))
          (inr ([], r, records, date, refl, tt, h, ground arith, refl))
    | inr recent ↦
        subst (ReturnsRecent parse threshold (r ∷ records) found)
          (sym (recent_more parse threshold r records found date h recent))
          (ReturnsRecent-more parse threshold r records found date
            (take_recent parse threshold records (found ++ r.advisory ∷ [])) h (ground arith)
            (take_recent-ReturnsRecent parse threshold records (found ++ r.advisory ∷ [])))
  ]
]

-- `getAdvisoryListByReleases` returns the advisories at the beginning of the file that are not older
-- than the threshold, and after them the first one that is older, if there is one; it returns an
-- error exactly if it comes to a date that cannot be read.
pub get_advisory_list_by_releases-ReturnsRecent :
    (parse : Str → Result ℕ) (threshold : ℕ) (records : List Listed)
    → ReturnsRecent parse threshold records []
        (get_advisory_list_by_releases parse threshold (ok records))
unfolding get_advisory_list_by_releases
get_advisory_list_by_releases-ReturnsRecent parse threshold records =
    take_recent-ReturnsRecent parse threshold records []
