-- ===== src/Osv/Affected.antt =====
-- tools/osv-generator/cve_parser.go: the names in the lists of affected packages.
use mintmaker.Base.{
  ℕ, ◌+◌, ◌<◌, ◌≤◌, true, false, Option, none, some, List, [], ◌∷◌, ◌++◌, Str, str_eq, str_eq_iff,
  In, if◌then◌else◌, ◌≡◌, ◌↔◌, refl, sym, ap, ◌∙◌, subst, inl, inr, Bool-cases, Option-cases, arith,
}
use mintmaker.Osv.{
  AffectedPackage, Vex, OsvApi, contains, add_once, add_each, add_purls, rpm_packages,
  image_packages, tree_purls, get_affected_list_rpms, get_affected_list_containers,
}

-- How many entries have a name.
abbrev pub count_named : Str → List AffectedPackage → ℕ
count_named n [] = 0
count_named n (p ∷ ps) = (if str_eq p.product.name n then 1 else 0) + count_named n ps

count_named_append :
    (n : Str) (xs ys : List AffectedPackage)
    → count_named n (xs ++ ys) ≡ count_named n xs + count_named n ys
count_named_append n [] ys = omega arith
count_named_append n (x ∷ xs) ys = omega (arith, count_named_append n xs ys)

contains_lem :
    (p : AffectedPackage) (found : List AffectedPackage)
    → (contains found p ≡ true) ↔ (0 < count_named p.product.name found)
unfolding contains
contains_lem p [] = ((λ h. absurd (no h)), λ h. absurd (none_there h))
  where
    no : false ≡ true → ⊥
    no h = cc

    none_there : 0 < 0 → ⊥
    none_there h = omega arith
contains_lem p (x ∷ found) = elim (Bool-cases (str_eq x.product.name p.product.name)) [
  | inl on ↦ rw on ((λ h. omega arith), λ h. refl)
  | inr off ↦ rw off (
    (λ h. omega (arith, (contains_lem p found).0 h)),
    λ h. (contains_lem p found).1 (omega arith),
  )
]

-- Each package of the list has a name of its own.
abbrev pub HasDistinctNames : List AffectedPackage → Type 0
HasDistinctNames found = (n : Str) → count_named n found ≤ 1

none_named :
    (p : AffectedPackage) (found : List AffectedPackage)
    → contains found p ≡ false
    → count_named p.product.name found ≡ 0
none_named p found off = ground (arith, contains_lem p found)

module _ (p : AffectedPackage) (found : List AffectedPackage) where
  count_kept :
      (n : Str) → contains found p ≡ true → count_named n (add_once found p) ≡ count_named n found
  unfolding add_once
  count_kept n on = rw on refl

  count_added :
      (n : Str)
      → contains found p ≡ false
      → count_named n (add_once found p) ≡ count_named n found + count_named n (p ∷ [])
  unfolding add_once
  count_added n off = rw off (count_named_append n found (p ∷ []))

  absent :
      (n : Str)
      → contains found p ≡ false
      → str_eq p.product.name n ≡ true
      → count_named n found ≡ 0
  absent n off same =
      subst (λ m. count_named m found ≡ 0) ((str_eq_iff p.product.name n).0 same)
        (none_named p found off)

  one_new :
      (n : Str)
      → contains found p ≡ false
      → count_named n found ≤ 1
      → count_named n found + count_named n (p ∷ []) ≤ 1
  one_new n off h = elim (Bool-cases (str_eq p.product.name n)) [
    | inr other ↦ rw other (omega (arith, h))
    | inl same ↦ rw same (omega (arith, absent n off same))
  ]

  add_once-HasDistinctNames : HasDistinctNames found → HasDistinctNames (add_once found p)
  add_once-HasDistinctNames h n = elim (Bool-cases (contains found p)) [
    | inl on ↦ omega (arith, count_kept n on, h n)
    | inr off ↦ omega (arith, count_added n off, one_new n off (h n))
  ]

  add_once_grows : (n : Str) → count_named n found ≤ count_named n (add_once found p)
  add_once_grows n = elim (Bool-cases (contains found p)) [
    | inl on ↦ omega (arith, count_kept n on)
    | inr off ↦ omega (arith, count_added n off)
  ]

  one_named : count_named p.product.name (p ∷ []) ≡ 1
  one_named = rw ((str_eq_iff p.product.name p.product.name).1 refl) refl

  add_once_named : 0 < count_named p.product.name (add_once found p)
  add_once_named = elim (Bool-cases (contains found p)) [
    | inl on ↦ omega (arith, count_kept p.product.name on, (contains_lem p found).0 on)
    | inr off ↦ omega (arith, count_added p.product.name off, one_named)
  ]

add_each-HasDistinctNames :
    (ps found : List AffectedPackage)
    → HasDistinctNames found
    → HasDistinctNames (add_each ps found)
unfolding add_each
add_each-HasDistinctNames [] found h = h
add_each-HasDistinctNames (p ∷ ps) found h =
    add_each-HasDistinctNames ps (add_once found p) (add_once-HasDistinctNames p found h)

add_each_grows :
    (n : Str) (ps found : List AffectedPackage)
    → count_named n found ≤ count_named n (add_each ps found)
unfolding add_each
add_each_grows n [] found = omega arith
add_each_grows n (p ∷ ps) found =
    omega (arith, add_once_grows p found n, add_each_grows n ps (add_once found p))

add_each_named :
    (q : AffectedPackage) (ps found : List AffectedPackage)
    → In q ps
    → 0 < count_named q.product.name (add_each ps found)
unfolding add_each
add_each_named q [] found m = absurd m
add_each_named q (p ∷ ps) found (inl e) =
    subst (λ (x : AffectedPackage). 0 < count_named x.product.name (add_each ps (add_once found p)))
      e (omega (arith, add_once_named p found, add_each_grows p.product.name ps (add_once found p)))
add_each_named q (p ∷ ps) found (inr m) = add_each_named q ps (add_once found p) m

-- What holds of the list that the loops return: names are distinct, there is an entry for the name of
-- each package, and the entries that were there stay.
abbrev pub Collects :
    (Str → Option (List AffectedPackage))
    → List Str
    → List AffectedPackage
    → Option (List AffectedPackage)
    → Type 0
Collects packages purls found none = (purl : Str) × In purl purls × (packages purl ≡ none)
Collects packages purls found (some affected) =
    HasDistinctNames affected
    × ((n : Str) → count_named n found ≤ count_named n affected)
    × ((purl : Str) (ps : List AffectedPackage) (q : AffectedPackage)
        → In purl purls
        → packages purl ≡ some ps
        → In q ps
        → count_named q.product.name affected ≡ 1)

module _ (packages : Str → Option (List AffectedPackage)) where
  add_purls-none :
      (purl : Str) (purls : List Str) (found : List AffectedPackage)
      → packages purl ≡ none
      → add_purls packages (purl ∷ purls) found ≡ none
  unfolding add_purls
  add_purls-none purl purls found h = rw (h, add_purls) refl

  add_purls-some :
      (purl : Str) (purls : List Str) (found ps : List AffectedPackage)
      → packages purl ≡ some ps
      → add_purls packages (purl ∷ purls) found ≡ add_purls packages purls (add_each ps found)
  unfolding add_purls
  add_purls-some purl purls found ps h = rw (h, add_purls) refl

  one_of :
      (n : Str) (affected : List AffectedPackage)
      → HasDistinctNames affected
      → 0 < count_named n affected
      → count_named n affected ≡ 1
  one_of n affected h k = omega (arith, h n)

  some_same : {a b : List AffectedPackage} → some a ≡ some b → a ≡ b
  some_same h = cc

  Collects-next :
      (purl : Str) (purls : List Str) (found ps : List AffectedPackage)
      (result : Option (List AffectedPackage))
      → packages purl ≡ some ps
      → Collects packages purls (add_each ps found) result
      → Collects packages (purl ∷ purls) found result
  Collects-next purl purls found ps none h (later, m, k) = (later, inr m, k)
  Collects-next purl purls found ps (some affected) h (distinct, grows, named) = (
    distinct,
    λ n. omega (arith, grows n, add_each_grows n ps found),
    λ other qs q m k into. elim m [
      | inr later ↦ named other qs q later k into
      | inl e ↦
          let same : ps ≡ qs = some_same (sym h ∙ ap packages e ∙ k) in
          one_of q.product.name affected distinct (
            omega (
              arith,
              grows q.product.name,
              add_each_named q ps found (subst (In q) (sym same) into),
            ))
    ],
  )

  add_purls-Collects :
      (purls : List Str) (found : List AffectedPackage)
      → HasDistinctNames found
      → Collects packages purls found (add_purls packages purls found)
  add_purls-Collects [] found h =
      unfold add_purls in (h, (λ n. omega arith), λ purl ps q m k into. absurd m)
  add_purls-Collects (purl ∷ purls) found h = elim (Option-cases (packages purl)) [
    | inl e ↦
        subst (Collects packages (purl ∷ purls) found) (sym (add_purls-none purl purls found e))
          (purl, inl refl, e)
    | inr (ps, e) ↦
        subst (Collects packages (purl ∷ purls) found) (sym (add_purls-some purl purls found ps e))
          (Collects-next purl purls found ps (add_purls packages purls (add_each ps found)) e
            (add_purls-Collects purls (add_each ps found) (add_each-HasDistinctNames ps found h)))
  ]

-- Both lists of affected packages: no two entries have the same name, and there is exactly one entry
-- for the name of each package that the purls under an architecture branch of the product tree stand
-- for, whichever architecture and version that is; the program panics only at a purl that its regular
-- expression does not match.
pub get_affected_list-Collects :
    (api : OsvApi) (vex : Vex)
    → Collects (rpm_packages api) (tree_purls vex.branches) [] (get_affected_list_rpms api vex)
      × Collects
          (image_packages api)
          (tree_purls vex.branches)
          []
          (get_affected_list_containers api vex)
unfolding get_affected_list_rpms get_affected_list_containers
get_affected_list-Collects api vex = (
  add_purls-Collects (rpm_packages api) (tree_purls vex.branches) [] (λ n. omega arith),
  add_purls-Collects (image_packages api) (tree_purls vex.branches) [] (λ n. omega arith),
)
