-- ===== src/Component/Secrets/Entries.antt =====
-- internal/component: the entries of the label of a secret, wildcards among them, and the tests that the
-- loops make of them.
use mintmaker.Base.{
  ◌≡◌, ◌↔◌, refl, sym, ap, ◌∙◌, inl, inr, Bool, true, false, List, [], ◌∷◌, ◌++◌, Str, codes,
  contains, In, Bool-cases, arith, trim_suffix, has_suffix, str_eq, str_eq_iff,
}
use mintmaker.Component.Secrets.{filter}

-- Strings that end with a star.
pub trim_star : (stem : Str) → trim_suffix (stem ++ codes "*") (codes "*") ≡ stem
unfolding trim_suffix str_eq
trim_star [] = refl
trim_star (c ∷ []) = ground arith
trim_star (c ∷ d ∷ stem) = ground (arith, trim_star (d ∷ stem))

pub has_star : (stem : Str) → has_suffix (stem ++ codes "*") (codes "*") ≡ true
unfolding has_suffix str_eq
has_star [] = refl
has_star (c ∷ stem) = ground (arith, has_star stem)

pub stem_of : (w : Str) → has_suffix w (codes "*") ≡ true → (stem : Str) × (w ≡ stem ++ codes "*")
unfolding has_suffix
stem_of [] h = absurd (no_star h)
  where
    no_star : has_suffix [] (codes "*") ≡ true → ⊥
    no_star h = unfold has_suffix str_eq in cc
stem_of (c ∷ w) h = elim (Bool-cases (str_eq (c ∷ w) (codes "*"))) [
  | inl on ↦ ([], (str_eq_iff (c ∷ w) (codes "*")).0 on)
  | inr off ↦ let later = stem_of w (rw off at h) in (c ∷ later.0, ap (λ t. c ∷ t) later.1)
]

pub contains-In : (ts : List Str) (s : Str) → (contains ts s ≡ true) ↔ In s ts
unfolding contains
contains-In [] s = ((λ h. absurd (no h)), λ h. absurd h)
  where
    no : false ≡ true → ⊥
    no h = cc
contains-In (t ∷ ts) s = elim (Bool-cases (str_eq t s)) [
  | inl on ↦ rw on ((λ h. inl ((str_eq_iff t s).0 on)), λ h. refl)
  | inr off ↦ rw off (
    (λ h. inr ((contains-In ts s).0 h)),
    λ h. elim h [
      | inl e ↦ absurd (differ (sym off ∙ (str_eq_iff t s).1 e))
      | inr k ↦ (contains-In ts s).1 k
    ],
  )
]
  where
    differ : false ≡ true → ⊥
    differ h = cc

pub filter-In :
    {A : Type 0} (test : A → Bool) (xs : List A) (x : A)
    → In x (filter test xs) ↔ (In x xs × (test x ≡ true))
unfolding filter
filter-In test [] x = ((λ h. absurd h), λ h. absurd h.0)
filter-In test (y ∷ xs) x = elim (Bool-cases (test y)) [
  | inl on ↦ rw on (
    (λ h. elim h [
      | inl e ↦ (inl e, ap test (sym e) ∙ on)
      | inr k ↦ (inr ((filter-In test xs x).0 k).0, ((filter-In test xs x).0 k).1)
    ]),
    λ (h, t). elim h [ inl e ↦ inl e | inr k ↦ inr ((filter-In test xs x).1 (k, t)) ],
  )
  | inr off ↦ rw off (
    (λ k. (inr ((filter-In test xs x).0 k).0, ((filter-In test xs x).0 k).1)),
    λ (h, t). elim h [
      | inl e ↦ absurd (differ (sym off ∙ ap test e ∙ t))
      | inr k ↦ (filter-In test xs x).1 (k, t)
    ],
  )
]
  where
    differ : false ≡ true → ⊥
    differ h = cc
