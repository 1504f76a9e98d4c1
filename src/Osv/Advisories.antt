-- ===== src/Osv/Advisories.antt =====
-- tools/osv-generator/generator.go: the advisories of the two lists and `GenerateOSV`. The network,
-- the CSV and JSON libraries, the dates and the order in which the goroutines send come from outside;
-- a panic is none.
use mintmaker.Base.{
  ℕ, Bool, Option, none, some, List, [], ◌∷◌, ◌++◌, Str, codes, contains_str, ltb, Result, ok, err,
  if◌then◌else◌, ◌==◌, length,
}
use mintmaker.Osv.{Vex, Osv, OsvApi, convert_to_osv}

-- A record of releases.csv or changes.csv: its first two fields
pub record Listed : Type 0 where
  pub advisory : Str
  pub date : Str

-- The loop of `getAdvisoryListByReleases`, with the threshold and what reads a date
unfoldable pub take_recent : (Str → Result ℕ) → ℕ → List Listed → List Str → Result (List Str)
take_recent parse threshold [] found = ok found
take_recent parse threshold (r ∷ records) found = elim (parse r.date) [
  | err e ↦ err e
  | ok date ↦
      let more = take_recent parse threshold records (found ++ r.advisory ∷ []) in
      if ltb date threshold then ok (found ++ r.advisory ∷ []) else more
]

-- `getAdvisoryListByReleases`, with the records of the file or the error of getting them
unfoldable pub get_advisory_list_by_releases :
    (Str → Result ℕ) → ℕ → Result (List Listed) → Result (List Str)
get_advisory_list_by_releases parse threshold (err e) = err e
get_advisory_list_by_releases parse threshold (ok records) = take_recent parse threshold records []

-- The loop of `getAdvisoryListByModified`
unfoldable pub take_modified : ℕ → List Listed → List Str → List Str
take_modified limit [] found = found
take_modified limit (r ∷ records) found =
    let added = found ++ r.advisory ∷ [] in
    let stop = length added == limit in
    let rest =
      take_modified limit records
        (if contains_str r.advisory (codes "rhsa-") then added else found) in
    if contains_str r.advisory (codes "rhsa-") then (if stop then added else rest) else rest

-- `getAdvisoryListByModified`, with the sort by descending names
unfoldable pub get_advisory_list_by_modified :
    (List Listed → List Listed) → ℕ → Result (List Listed) → Result (List Str)
get_advisory_list_by_modified sort limit (err e) = err e
get_advisory_list_by_modified sort limit (ok records) = ok (take_modified limit (sort records) [])

-- `extractAdvisory`, with the document or the error of `GetVEXFromUrl`
unfoldable pub extract_advisory : OsvApi → Bool → Result Vex → Option (List Osv)
extract_advisory api containers (err e) = none
extract_advisory api containers (ok vex) = convert_to_osv api vex containers

unfoldable pub extract_all :
    OsvApi → Bool → (Str → Result Vex) → List Str → Option (List (List Osv))
extract_all api containers get [] = some []
extract_all api containers get (a ∷ advisories) = elim (extract_advisory api containers (get a)) [
  | none ↦ none
  | some records ↦ elim (extract_all api containers get advisories) [
    | none ↦ none
    | some rest ↦ some (records ∷ rest)
  ]
]

unfoldable pub concat {ℓ} : {A : Type ℓ} → List (List A) → List A
concat [] = []
concat (l ∷ ls) = l ++ concat ls

-- What is stored, with the order in which the goroutines send
unfoldable pub generate_osv :
    OsvApi
    → Bool
    → (Str → Result Vex)
    → (List (List Osv) → List (List Osv))
    → Result (List Str)
    → Option (Result (List Osv))
generate_osv api containers get arrive (err e) = some (err e)
generate_osv api containers get arrive (ok advisories) =
    elim (extract_all api containers get advisories) [
      | none ↦ none
      | some lists ↦ some (ok (concat (arrive lists)))
    ]
