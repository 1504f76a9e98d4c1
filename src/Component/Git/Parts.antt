-- ===== src/Component/Git/Parts.antt =====
-- What `strings.Cut` and `strings.Split` make of a text around a separator of one byte, for the owner
-- and the name of a repository.
use mintmaker.Base.{
  ℕ, true, false, Option, none, some, List, [], ◌∷◌, ◌++◌, Str, cut, split, ◌==◌, ◌≡◌, ◌≢◌, In,
  refl, sym, ap, ◌∙◌, subst, inl, inr, Bool-cases, arith,
}

-- What `cut` says of `split` and of the text.
abbrev pub Cuts : ℕ → Str → Option (Str × Str) → Type 0
Cuts sep s none = (split sep s ≡ s ∷ []) × (¬ In sep s)
Cuts sep s (some (a, r)) = (split sep s ≡ a ∷ split sep r) × (s ≡ a ++ sep ∷ r) × (¬ In sep a)

module _ (sep c : ℕ) (s : Str) where
  split_later :
      (p : Str) (ps : List Str)
      → (c == sep) ≡ false
      → split sep s ≡ p ∷ ps
      → split sep (c ∷ s) ≡ (c ∷ p) ∷ ps
  unfolding split
  split_later p ps other h = rw (h, other) refl

  cut-none : (c == sep) ≡ false → cut sep s ≡ none → cut sep (c ∷ s) ≡ none
  unfolding cut
  cut-none other h = rw (h, other) refl

  cut-some :
      (a r : Str) → (c == sep) ≡ false → cut sep s ≡ some (a, r) → cut sep (c ∷ s) ≡ some (c ∷ a, r)
  unfolding cut
  cut-some a r other h = rw (h, other) refl

  split_here : (c == sep) ≡ true → split sep (c ∷ s) ≡ [] ∷ split sep s
  unfolding split
  split_here h = rw h refl

  cut_here : (c == sep) ≡ true → cut sep (c ∷ s) ≡ some ([], s)
  unfolding cut
  cut_here h = rw h refl

  In-later : (t : Str) → (c == sep) ≡ false → (¬ In sep t) → ¬ In sep (c ∷ t)
  In-later t other free (inl same) = ground arith
  In-later t other free (inr k) = free k

  Cuts-later :
      (o : Option (Str × Str))
      → (c == sep) ≡ false
      → cut sep s ≡ o
      → Cuts sep s o
      → Cuts sep (c ∷ s) (cut sep (c ∷ s))
  Cuts-later none other e (h, free) =
      subst (Cuts sep (c ∷ s)) (sym (cut-none other e))
        (split_later s [] other h, In-later s other free)
  Cuts-later (some (a, r)) other e (h, k, free) =
      subst (Cuts sep (c ∷ s)) (sym (cut-some a r other e))
        (split_later a (split sep r) other h, ap (λ t. c ∷ t) k, In-later a other free)

pub cut-Cuts : (sep : ℕ) (s : Str) → Cuts sep s (cut sep s)
cut-Cuts sep [] = unfold cut split in (refl, λ h. h)
cut-Cuts sep (c ∷ s) = elim (Bool-cases (c == sep)) [
  | inr off ↦ Cuts-later sep c s (cut sep s) off refl (cut-Cuts sep s)
  | inl on ↦
      let same : c ≡ sep = ground arith in
      subst (Cuts sep (c ∷ s)) (sym (cut_here sep c s on))
        (split_here sep c s on, ap (λ d. d ∷ s) same, λ h. h)
]

pub cons_nil : {A : Type 0} {x : A} {xs : List A} → (x ∷ xs) ≡ [] → ⊥
cons_nil h = cc

heads : {A : Type 0} {x y : A} {xs ys : List A} → (x ∷ xs) ≡ y ∷ ys → x ≡ y
heads h = cc

tails : {A : Type 0} {x y : A} {xs ys : List A} → (x ∷ xs) ≡ y ∷ ys → xs ≡ ys
tails h = cc

split_nonempty : (sep : ℕ) (s : Str) → split sep s ≢ []
split_nonempty sep s = go (cut sep s) (cut-Cuts sep s)
  where
    go : (o : Option (Str × Str)) → Cuts sep s o → split sep s ≢ []
    go none (h, free) e = cons_nil (sym h ∙ e)
    go (some (a, r)) (h, k, free) e = cons_nil (sym h ∙ e)

split_single : (sep : ℕ) (s r : Str) → split sep s ≡ r ∷ [] → (s ≡ r) × (¬ In sep r)
split_single sep s r = go (cut sep s) (cut-Cuts sep s)
  where
    go : (o : Option (Str × Str)) → Cuts sep s o → split sep s ≡ r ∷ [] → (s ≡ r) × (¬ In sep r)
    go none (h, free) e =
        let same : s ≡ r = heads (sym h ∙ e) in (same, subst (λ t. ¬ In sep t) same free)
    go (some (a, t)) (h, k, free) e = absurd (split_nonempty sep t (tails (sym h ∙ e)))

-- The text is these two, with the first separator between them.
abbrev pub IsCutAt : ℕ → Str → Str → Str → Type 0
IsCutAt sep s a r = (s ≡ a ++ sep ∷ r) × (¬ In sep a)

different : (sep c : ℕ) (s : Str) → (¬ In sep (c ∷ s)) → (c == sep) ≡ false
different sep c s free = elim (Bool-cases (c == sep)) [
  | inl on ↦ absurd (free (inl (ground arith)))
  | inr off ↦ off
]

itself : (sep : ℕ) → (sep == sep) ≡ true
itself sep = ground arith

pub cut_at : (sep : ℕ) (a r : Str) → (¬ In sep a) → cut sep (a ++ sep ∷ r) ≡ some (a, r)
cut_at sep [] r free = cut_here sep sep r (itself sep)
cut_at sep (c ∷ a) r free =
    cut-some sep c (a ++ sep ∷ r) a r (different sep c a free) (cut_at sep a r (λ k. free (inr k)))

pub split_at : (sep : ℕ) (a r : Str) → (¬ In sep a) → split sep (a ++ sep ∷ r) ≡ a ∷ split sep r
split_at sep [] r free = split_here sep sep r (itself sep)
split_at sep (c ∷ a) r free =
    split_later sep c (a ++ sep ∷ r) a (split sep r) (different sep c a free)
      (split_at sep a r (λ k. free (inr k)))

pub split_free : (sep : ℕ) (s : Str) → (¬ In sep s) → split sep s ≡ s ∷ []
split_free sep [] free = unfold split in refl
split_free sep (c ∷ s) free =
    split_later sep c s s [] (different sep c s free) (split_free sep s (λ k. free (inr k)))

pub split_two :
    (sep : ℕ) (s a r : Str) → split sep s ≡ a ∷ r ∷ [] → IsCutAt sep s a r × (¬ In sep r)
split_two sep s a r = go (cut sep s) (cut-Cuts sep s)
  where
    go :
        (o : Option (Str × Str))
        → Cuts sep s o
        → split sep s ≡ a ∷ r ∷ []
        → IsCutAt sep s a r × (¬ In sep r)
    go none (h, free) e = absurd (cons_nil (sym (tails (sym h ∙ e))))
    go (some (b, t)) (h, k, free) e =
        let first : b ≡ a = heads (sym h ∙ e) in
        let (second, rest) = split_single sep t r (tails (sym h ∙ e)) in
        (
          (
            k ∙ (ap (λ x. x ++ sep ∷ t) first ∙ ap (λ x. a ++ sep ∷ x) second),
            subst (λ x. ¬ In sep x) first free,
          ),
          rest,
        )
