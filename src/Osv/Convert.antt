-- ===== src/Osv/Convert.antt =====
-- tools/osv-generator/cve_parser.go: which records `ConvertToOSV` makes, and when it panics.
use mintmaker.Base.{
  Bool, true, false, Option, none, some, List, [], ◌∷◌, ◌++◌, Str, In, In-append, map, append_assoc,
  append-nil, ◌≡◌, refl, sym, ap, ◌∙◌, subst, ◌⊎◌, inl, inr, Option-cases,
}
use mathlib.Core.List.{map-append}
use mintmaker.Osv.{
  AffectedPackage, Vulnerability, Vex, Osv, OsvApi, get_summary, get_details, osv_record,
  convert_all, convert_images, convert_to_osv, get_affected_list_rpms, get_affected_list_containers,
}

-- The identifiers of the vulnerabilities that have a summary.
abbrev summarised_as : Vulnerability → Option Str → List Str → List Str
summarised_as v none rest = rest
summarised_as v (some summary) rest = v.cve ∷ rest

abbrev pub summarised : List Vulnerability → List Str
summarised [] = []
summarised (v ∷ vs) = summarised_as v (get_summary v) (summarised vs)

-- It has a summary and no description, or no date that can be read.
abbrev pub IsIncomplete : OsvApi → Vulnerability → Type 0
IsIncomplete api v =
    ((summary : Str) × (get_summary v ≡ some summary))
    × ((api.published v.discovery_date ≡ none) ⊎ (get_details v ≡ none))

-- There is a record, in order, for each vulnerability with a summary, and each has all the affected
-- packages; a panic means that one of these vulnerabilities is incomplete.
abbrev pub Converts :
    OsvApi → List AffectedPackage → List Vulnerability → List Osv → Option (List Osv) → Type 0
Converts api affected vs found none = (v : Vulnerability) × In v vs × IsIncomplete api v
Converts api affected vs found (some records) =
    (map (λ (o : Osv). o.id) records ≡ map (λ (o : Osv). o.id) found ++ summarised vs)
    × ((v : Vulnerability) → In v vs → IsIncomplete api v → ⊥)
    × (((o : Osv) → In o found → o.affected ≡ affected)
        → (o : Osv) → In o records
        → o.affected ≡ affected)

module _ (api : OsvApi) (vex : Vex) (affected : List AffectedPackage) (v : Vulnerability)
    (vs : List Vulnerability) (found : List Osv) where
  convert_skipped :
      get_summary v ≡ none
      → convert_all api vex affected (v ∷ vs) found ≡ convert_all api vex affected vs found
  unfolding convert_all
  convert_skipped h = rw (h, convert_all) refl

  convert_undated :
      (summary : Str)
      → get_summary v ≡ some summary
      → api.published v.discovery_date ≡ none
      → convert_all api vex affected (v ∷ vs) found ≡ none
  unfolding convert_all
  convert_undated summary h d = rw (h, convert_all, d) refl

  convert_undescribed :
      (summary date : Str)
      → get_summary v ≡ some summary
      → api.published v.discovery_date ≡ some date
      → get_details v ≡ none
      → convert_all api vex affected (v ∷ vs) found ≡ none
  unfolding convert_all
  convert_undescribed summary date h d k = rw (h, convert_all, d, k) refl

  convert_added :
      (summary date details : Str)
      → get_summary v ≡ some summary
      → api.published v.discovery_date ≡ some date
      → get_details v ≡ some details
      → convert_all api vex affected (v ∷ vs) found
        ≡ convert_all api vex affected vs
            (found ++ osv_record api vex affected v summary date details ∷ [])
  unfolding convert_all
  convert_added summary date details h d k = rw (h, convert_all, d, k) refl

none-some : {A : Type 0} {a : A} → none ≡ some a → ⊥
none-some h = cc

module _ (api : OsvApi) (affected : List AffectedPackage) (v : Vulnerability)
    (vs : List Vulnerability) (found : List Osv) where
  Converts-skip :
      (r : Option (List Osv))
      → get_summary v ≡ none
      → Converts api affected vs found r
      → Converts api affected (v ∷ vs) found r
  Converts-skip none h (w, m, k) = (w, inr m, k)
  Converts-skip (some records) h (ids, complete, packages) = (
    ids ∙ ap (λ o. map (λ (x : Osv). x.id) found ++ summarised_as v o (summarised vs)) (sym h),
    λ w m k. elim m [
      | inl e ↦ none-some (sym h ∙ ap get_summary e ∙ k.0.1)
      | inr later ↦ complete w later k
    ],
    packages,
  )

  Converts-add :
      (o : Osv) (r : Option (List Osv)) (summary date details : Str)
      → o.id ≡ v.cve
      → o.affected ≡ affected
      → get_summary v ≡ some summary
      → api.published v.discovery_date ≡ some date
      → get_details v ≡ some details
      → Converts api affected vs (found ++ o ∷ []) r
      → Converts api affected (v ∷ vs) found r
  Converts-add o none summary date details named whole h d k (w, m, i) = (w, inr m, i)
  Converts-add o (some records) summary date details named whole h d k (ids, complete, packages) = (
    ids
        ∙ ap (λ l. l ++ summarised vs) (map-append (λ (x : Osv). x.id) found (o ∷ []))
        ∙ append_assoc (map (λ (x : Osv). x.id) found) (o.id ∷ []) (summarised vs)
        ∙ ap (λ c. map (λ (x : Osv). x.id) found ++ c ∷ summarised vs) named
        ∙ ap (λ s. map (λ (x : Osv). x.id) found ++ summarised_as v s (summarised vs)) (sym h),
    λ w m i. elim m [
      | inr later ↦ complete w later i
      | inl e ↦ elim i.1 [
        | inl undated ↦
            none-some
              (sym undated ∙ ap (λ (x : Vulnerability). api.published x.discovery_date) (sym e) ∙ d)
        | inr undescribed ↦ none-some (sym undescribed ∙ ap get_details (sym e) ∙ k)
      ]
    ],
    λ before. packages (λ x m. with_new before x (In-append x found (o ∷ []) m)),
  )
    where
      with_new :
          ((x : Osv) → In x found → x.affected ≡ affected)
          → (x : Osv) → In x found ⊎ In x (o ∷ [])
          → x.affected ≡ affected
      with_new before x (inl m) = before x m
      with_new before x (inr (inl e)) = ap (λ (y : Osv). y.affected) (sym e) ∙ whole
      with_new before x (inr (inr m)) = absurd m

module _ (api : OsvApi) (vex : Vex) (affected : List AffectedPackage) where
  convert_all-Converts :
      (vs : List Vulnerability) (found : List Osv)
      → Converts api affected vs found (convert_all api vex affected vs found)
  convert_all-Converts [] found =
      unfold convert_all in
      (sym (append-nil (map (λ (x : Osv). x.id) found)), (λ v m k. m), (λ before. before))
  convert_all-Converts (v ∷ vs) found = elim (Option-cases (get_summary v)) [
    | inl h ↦
        subst (Converts api affected (v ∷ vs) found)
          (sym (convert_skipped api vex affected v vs found h))
          (Converts-skip api affected v vs found (convert_all api vex affected vs found) h
            (convert_all-Converts vs found))
    | inr (summary, h) ↦ elim (Option-cases (api.published v.discovery_date)) [
      | inl d ↦
          subst (Converts api affected (v ∷ vs) found)
            (sym (convert_undated api vex affected v vs found summary h d))
            (v, inl refl, ((summary, h), inl d))
      | inr (date, d) ↦ elim (Option-cases (get_details v)) [
        | inl k ↦
            subst (Converts api affected (v ∷ vs) found)
              (sym (convert_undescribed api vex affected v vs found summary date h d k))
              (v, inl refl, ((summary, h), inr k))
        | inr (details, k) ↦
            let o : Osv = osv_record api vex affected v summary date details in
            subst (Converts api affected (v ∷ vs) found)
              (sym (convert_added api vex affected v vs found summary date details h d k))
              (Converts-add api affected v vs found o
                (convert_all api vex affected vs (found ++ o ∷ [])) summary date details
                (unfold osv_record in refl) (unfold osv_record in refl) h d k
                (convert_all-Converts vs (found ++ o ∷ [])))
      ]
    ]
  ]

-- What `ConvertToOSV` makes of the list of affected packages.
abbrev pub ConvertsFor :
    OsvApi → Vex → Bool → Option (List AffectedPackage) → Option (List Osv) → Type 0
ConvertsFor api vex containers none result = result ≡ none
ConvertsFor api vex true (some []) result = result ≡ some []
ConvertsFor api vex true (some (p ∷ affected)) result =
    Converts api (p ∷ affected) vex.vulnerabilities [] result
ConvertsFor api vex false (some affected) result =
    Converts api affected vex.vulnerabilities [] result

abbrev pub affected_list : OsvApi → Vex → Bool → Option (List AffectedPackage)
affected_list api vex true = get_affected_list_containers api vex
affected_list api vex false = get_affected_list_rpms api vex

module _ (api : OsvApi) (vex : Vex) where
  images :
      (r : Option (List AffectedPackage))
      → get_affected_list_containers api vex ≡ r
      → ConvertsFor api vex true r (convert_to_osv api vex true)
  unfolding convert_to_osv convert_images
  images none h = rw (h, convert_to_osv) refl
  images (some []) h = rw (h, convert_to_osv) refl
  images (some (p ∷ affected)) h =
      rw (h, convert_to_osv) (convert_all-Converts api vex (p ∷ affected) vex.vulnerabilities [])

  rpms :
      (r : Option (List AffectedPackage))
      → get_affected_list_rpms api vex ≡ r
      → ConvertsFor api vex false r (convert_to_osv api vex false)
  unfolding convert_to_osv
  rpms none h = rw (h, convert_to_osv) refl
  rpms (some affected) h =
      rw (h, convert_to_osv) (convert_all-Converts api vex affected vex.vulnerabilities [])

-- `ConvertToOSV` makes one record, in order, for each vulnerability that has a summary, and each
-- record has the whole list of affected packages; for containers it makes none if that list is empty.
-- It panics exactly when the list cannot be made or, except in that case, when a vulnerability with a
-- summary has no description or no date that can be read.
pub convert_to_osv-ConvertsFor :
    (api : OsvApi) (vex : Vex) (containers : Bool)
    → ConvertsFor api vex containers
        (affected_list api vex containers)
        (convert_to_osv api vex containers)
convert_to_osv-ConvertsFor api vex true = images api vex (get_affected_list_containers api vex) refl
convert_to_osv-ConvertsFor api vex false = rpms api vex (get_affected_list_rpms api vex) refl
