-- ===== src/Utils/Label/Valid.antt =====
-- internal/utils/sanitize.go: what `NormalizeLabelValue` returns, and where it changes nothing.
use mintmaker.Base.{
  ℕ, ◌≡◌, refl, ap, Bool, true, false, ◌≤◌, ◌⊎◌, inl, inr, [], ◌∷◌, Str, arith, length, All,
  length-take, take_all, replace_byte, Bool-cases,
}
use mintmaker.Utils.Label.{
  is_alphanumeric, is_label_byte, strip_leading, strip_trailing, squeeze, truncate, max_label,
  normalize_label_value,
}

abbrev pub Starts : Str → Type 0
Starts [] = ⊥
Starts (c ∷ s) = is_alphanumeric c ≡ true

abbrev pub Ends : Str → Type 0
Ends [] = ⊥
Ends (c ∷ []) = is_alphanumeric c ≡ true
Ends (c ∷ d ∷ s) = Ends (d ∷ s)

-- The rule of Kubernetes for a label value: empty, or at most 63 of the allowed bytes with an
-- alphanumeric one at both ends.
pub record IsLabel (s : Str) : Type 0 where
  pub short : length s ≤ max_label
  pub allowed : All (λ c. is_label_byte c ≡ true) s
  pub ends : (s ≡ []) ⊎ (Starts s × Ends s)

Ends-cons : (c : ℕ) (s : Str) → Ends s → Ends (c ∷ s)
Ends-cons c [] h = elim h [ ]
Ends-cons c (d ∷ s) h = h

alphanumeric_allowed : (c : ℕ) → is_alphanumeric c ≡ true → is_label_byte c ≡ true
unfolding is_label_byte
alphanumeric_allowed c h = ground arith

squeeze-allowed : (b : Bool) (s : Str) → All (λ c. is_label_byte c ≡ true) (squeeze b s)
unfolding squeeze
squeeze-allowed b [] = tt
squeeze-allowed b (c ∷ s) = elim (Bool-cases (is_label_byte c)) [
  | inl good ↦ rw good (good, squeeze-allowed false s)
  | inr bad ↦ rw bad (elim (Bool-cases b) [
    | inl on ↦ rw on (squeeze-allowed true s)
    | inr off ↦ rw off (unfold is_label_byte is_alphanumeric in refl, squeeze-allowed true s)
  ])
]

length-squeeze : (b : Bool) (s : Str) → length (squeeze b s) ≤ length s
unfolding squeeze
length-squeeze b [] = omega arith
length-squeeze b (c ∷ s) = ground (arith, length-squeeze false s, length-squeeze true s)

squeeze-cons :
    (b : Bool) (c : ℕ) (s : Str)
    → (squeeze b (c ∷ s) ≡ c ∷ squeeze false s)
      ⊎ (squeeze b (c ∷ s) ≡ squeeze true s)
      ⊎ (squeeze b (c ∷ s) ≡ b'_' ∷ squeeze true s)
unfolding squeeze
squeeze-cons b c s = elim (Bool-cases (is_label_byte c)) [
  | inl good ↦ rw good (inl refl)
  | inr bad ↦
      rw bad (elim (Bool-cases b) [
        | inl on ↦ rw on (inr (inl refl))
        | inr off ↦ rw off (inr (inr refl))
      ])
]

squeeze-Ends : (b : Bool) (s : Str) → Ends s → Ends (squeeze b s)
squeeze-Ends b [] h = elim h [ ]
squeeze-Ends b (c ∷ []) h = unfold squeeze in rw (alphanumeric_allowed c h) h
squeeze-Ends b (c ∷ d ∷ s) h = elim (squeeze-cons b c (d ∷ s)) [
  | inl kept ↦ rw kept (Ends-cons c (squeeze false (d ∷ s)) (squeeze-Ends false (d ∷ s) h))
  | inr (inl skipped) ↦ rw skipped (squeeze-Ends true (d ∷ s) h)
  | inr (inr marked) ↦
      rw marked (Ends-cons b'_' (squeeze true (d ∷ s)) (squeeze-Ends true (d ∷ s) h))
]

squeeze-Starts : (s : Str) → Starts s → Starts (squeeze false s)
unfolding squeeze
squeeze-Starts [] h = elim h [ ]
squeeze-Starts (c ∷ s) h = rw (alphanumeric_allowed c h) h

strip_leading-Starts : (s : Str) → (strip_leading s ≡ []) ⊎ Starts (strip_leading s)
unfolding strip_leading
strip_leading-Starts [] = inl refl
strip_leading-Starts (c ∷ s) = elim (Bool-cases (is_alphanumeric c)) [
  | inl good ↦ inr (rw good good)
  | inr bad ↦ rw bad (strip_leading-Starts s)
]

length-strip_leading : (s : Str) → length (strip_leading s) ≤ length s
unfolding strip_leading
length-strip_leading [] = omega arith
length-strip_leading (c ∷ s) = ground (arith, length-strip_leading s)

length-strip_trailing : (s : Str) → length (strip_trailing s) ≤ length s
unfolding strip_trailing
length-strip_trailing [] = omega arith
length-strip_trailing (c ∷ s) = ground (arith, length-strip_trailing s)

abbrev EndsOrEmpty : Str → Type 0
EndsOrEmpty [] = Unit
EndsOrEmpty (c ∷ s) = Ends (c ∷ s)

strip_trailing-step :
    (c : ℕ) (s t : Str)
    → strip_trailing s ≡ t
    → EndsOrEmpty t
    → EndsOrEmpty (strip_trailing (c ∷ s))
unfolding strip_trailing
strip_trailing-step c s [] e h = elim (Bool-cases (is_alphanumeric c)) [
  | inl good ↦ rw (e, good) good
  | inr bad ↦ rw (e, bad) tt
]
strip_trailing-step c s (d ∷ t) e h = rw e h

strip_trailing-EndsOrEmpty : (s : Str) → EndsOrEmpty (strip_trailing s)
strip_trailing-EndsOrEmpty [] = unfold strip_trailing in tt
strip_trailing-EndsOrEmpty (c ∷ s) =
    strip_trailing-step c s (strip_trailing s) refl (strip_trailing-EndsOrEmpty s)

-- A first byte that is alphanumeric is never stripped.
strip_trailing-Starts :
    (c : ℕ) (s t : Str)
    → strip_trailing s ≡ t
    → is_alphanumeric c ≡ true
    → Starts (strip_trailing (c ∷ s))
unfolding strip_trailing
strip_trailing-Starts c s [] e h = rw (e, h) h
strip_trailing-Starts c s (d ∷ t) e h = rw e h

Starts-Ends : (s : Str) → Starts s → EndsOrEmpty s → Ends s
Starts-Ends [] h k = h
Starts-Ends (c ∷ s) h k = k

trimmed : (s : Str) → Starts s → Starts (strip_trailing s) × Ends (strip_trailing s)
trimmed [] h = elim h [ ]
trimmed (c ∷ s) h =
    let first = strip_trailing-Starts c s (strip_trailing s) refl h in
    (first, Starts-Ends (strip_trailing (c ∷ s)) first (strip_trailing-EndsOrEmpty (c ∷ s)))

length-truncate : (s : Str) → length (truncate s) ≤ max_label
unfolding truncate
length-truncate s = ground (arith, length-take max_label s)

normalize-Ends :
    (s : Str)
    → (s ≡ []) ⊎ Starts s
    → let r = squeeze false (strip_trailing s) in (r ≡ []) ⊎ (Starts r × Ends r)
normalize-Ends s (inl e) = inl (rw e (unfold squeeze strip_trailing in refl))
normalize-Ends s (inr h) =
    let (first, last) = trimmed s h in
    inr (squeeze-Starts (strip_trailing s) first, squeeze-Ends false (strip_trailing s) last)

-- Every string is normalised to a valid Kubernetes label value.
pub normalize_label_value-IsLabel : (value : Str) → IsLabel (normalize_label_value value)
unfolding normalize_label_value
normalize_label_value-IsLabel value =
    let cutoff = truncate (replace_byte b'/' b'_' value) in
    let led = strip_leading cutoff in
    record {
      short = omega (
        arith,
        length-squeeze false (strip_trailing led),
        length-strip_trailing led,
        length-strip_leading cutoff,
        length-truncate (replace_byte b'/' b'_' value),
      );
      allowed = squeeze-allowed false (strip_trailing led);
      ends = normalize-Ends led (strip_leading-Starts cutoff);
    }

replace_byte_id : (s : Str) → All (λ c. is_label_byte c ≡ true) s → replace_byte b'/' b'_' s ≡ s
unfolding is_label_byte is_alphanumeric
replace_byte_id [] h = refl
replace_byte_id (c ∷ s) h = ground (arith, replace_byte_id s h.1, h.0)

squeeze_id : (b : Bool) (s : Str) → All (λ c. is_label_byte c ≡ true) s → squeeze b s ≡ s
unfolding squeeze
squeeze_id b [] h = refl
squeeze_id b (c ∷ s) h = rw h.0 (ap (λ r. c ∷ r) (squeeze_id false s h.1))

strip_leading_id : (s : Str) → Starts s → strip_leading s ≡ s
unfolding strip_leading
strip_leading_id [] h = refl
strip_leading_id (c ∷ s) h = rw h

strip_trailing_id : (s : Str) → Ends s → strip_trailing s ≡ s
unfolding strip_trailing
strip_trailing_id [] h = refl
strip_trailing_id (c ∷ []) h = rw h
strip_trailing_id (c ∷ d ∷ s) h = rw (strip_trailing_id (d ∷ s) h, strip_trailing)

truncate_id : (s : Str) → length s ≤ max_label → truncate s ≡ s
unfolding truncate
truncate_id s h = ground (arith, take_all max_label s h)

-- A valid label value is left as it is.
pub normalize_label_value_id : (value : Str) → IsLabel value → normalize_label_value value ≡ value
unfolding normalize_label_value
normalize_label_value_id value label =
    rw (replace_byte_id value label.allowed, truncate_id value label.short) (go label.ends)
  where
    go :
        (value ≡ []) ⊎ (Starts value × Ends value)
        → squeeze false (strip_trailing (strip_leading value)) ≡ value
    go (inl e) = rw e (unfold squeeze strip_trailing strip_leading in refl)
    go (inr (first, last)) =
        rw (strip_leading_id value first, strip_trailing_id value last)
          (squeeze_id false value label.allowed)

-- Normalising twice is normalising once.
pub normalize_label_value_idem :
    (value : Str)
    → normalize_label_value (normalize_label_value value) ≡ normalize_label_value value
normalize_label_value_idem value =
    normalize_label_value_id (normalize_label_value value) (normalize_label_value-IsLabel value)
