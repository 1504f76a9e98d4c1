-- ===== src/Component/Cache/Invariant.antt =====
-- internal/component/github/cache.go: what holds between the goroutines over one cache, however
-- their steps interleave.
use mintmaker.Base.{
  ℕ, suc, ◌+◌, ◌≤◌, ◌<◌, Bool, true, false, Option, none, some, ◌==◌, ◌≡◌, ◌≢◌, refl, sym, ◌∙◌,
  subst, ◌⊎◌, inl, inr, Bool-cases, arith,
}
use mintmaker.Component.Cache.{
  update, Sync, Pc, idle, locked, waiting, loaded_again, judging_again, refreshing, refreshed,
  value_stored, time_read, cleaning, closing,
}

module _ {A : Type 0} (f : ℕ → A) (i : ℕ) (a : A) where
  pub update_same : update f i a i ≡ a
  unfolding update
  update_same = ground arith

  pub update_other : (j : ℕ) → i ≢ j → update f i a j ≡ f j
  unfolding update
  update_other j h = ground arith

  -- What holds of the new value and of the others holds of all.
  pub all_update :
      (P : ℕ → A → Type 0) → P i a → ((j : ℕ) → i ≢ j → P j (f j)) → (j : ℕ) → P j (update f i a j)
  all_update P new old j = elim (Bool-cases (i == j)) [
    | inl e ↦
        let same : i ≡ j = ground arith in
        subst (λ k. P k (update f i a k)) same (subst (P i) (sym update_same) new)
    | inr e ↦
        let other : i ≢ j = ground arith in subst (P j) (sym (update_other j other)) (old j other)
  ]

pub none-some : {A : Type 0} {a : A} → none ≡ some a → ⊥
none-some h = cc

pub true-false : true ≡ false → ⊥
true-false h = cc

pub some-injective : {a b : ℕ} → some a ≡ some b → a ≡ b
some-injective h = cc

module _ {V : Type 0} where
  -- The goroutine has the mutex.
  abbrev pub holding : Pc V → Bool
  holding (locked _) = true
  holding (loaded_again _ _) = true
  holding (judging_again _ _ _) = true
  holding (closing _ _) = true
  holding _ = false

  -- It looks again at the value, with the mutex.
  abbrev pub deciding : Pc V → Bool
  deciding (loaded_again _ _) = true
  deciding (judging_again _ _ _) = true
  deciding _ = false

  -- The channel that it is to close, from the start of its refresh to the end.
  abbrev pub leads : Pc V → Option ℕ
  leads (refreshing _ c) = some c
  leads (refreshed _ c _) = some c
  leads (value_stored _ c _) = some c
  leads (time_read _ c _ _) = some c
  leads (cleaning c _) = some c
  leads (closing c _) = some c
  leads _ = none

  -- The channel that it waits for.
  abbrev pub waits : Pc V → Option ℕ
  waits (waiting _ c) = some c
  waits _ = none

  -- What a goroutine at a place needs of the shared fields, with the goroutine that refreshes.
  abbrev pub LockAt : Sync → ℕ → Pc V → Type 0
  LockAt y i q = holding q ≡ true → y.owner ≡ some i

  abbrev pub HeldAt : Sync → ℕ → Pc V → Type 0
  HeldAt y i q = y.owner ≡ some i → holding q ≡ true

  abbrev pub QuietAt : Sync → ℕ → Pc V → Type 0
  QuietAt y i q = deciding q ≡ true → y.in_progress ≡ false

  abbrev pub WaitAt : Sync → ℕ → Pc V → Type 0
  WaitAt y i q =
      (c : ℕ)
      → waits q ≡ some c
      → (y.closed c ≡ true) ⊎ ((y.in_progress ≡ true) × (y.refresh_done ≡ c))

  abbrev pub LeadAt : Sync → ℕ → ℕ → Pc V → Type 0
  LeadAt y leader i q =
      (c : ℕ) → leads q ≡ some c → (i ≡ leader) × (y.in_progress ≡ true) × (y.refresh_done ≡ c)

  abbrev pub FewBusy : (ℕ → Pc V) → Type 0
  FewBusy pc = (n : ℕ) × ((j : ℕ) → n ≤ j → pc j ≡ idle)

  -- The holder of the mutex is its owner; the flag is set exactly while the leader refreshes, and
  -- `refresh_done` is its channel, still open; a waiter's channel is closed or that one; channels
  -- are closed only once made; and only finitely many goroutines have begun.
  pub record Inv (y : Sync) (pc : ℕ → Pc V) : Type 0 where
    pub leader : ℕ
    pub lock : (i : ℕ) → LockAt y i (pc i)
    pub held : (i : ℕ) → HeldAt y i (pc i)
    pub quiet : (i : ℕ) → QuietAt y i (pc i)
    pub lead : (i : ℕ) → LeadAt y leader i (pc i)
    pub led : y.in_progress ≡ true → leads (pc leader) ≡ some y.refresh_done
    pub opened : y.in_progress ≡ true → y.closed y.refresh_done ≡ false
    pub made : y.in_progress ≡ true → y.refresh_done < y.channels
    pub wait : (i : ℕ) → WaitAt y i (pc i)
    pub unmade : (c : ℕ) → y.channels ≤ c → y.closed c ≡ false
    pub few : FewBusy pc

  pub deciding-holding : (q : Pc V) → deciding q ≡ true → holding q ≡ true
  deciding-holding (loaded_again _ _) h = refl
  deciding-holding (judging_again _ _ _) h = refl
  deciding-holding _ h = cc

  pub FewBusy-update : (pc : ℕ → Pc V) (i : ℕ) (p : Pc V) → FewBusy pc → FewBusy (update pc i p)
  FewBusy-update pc i p (n, h) =
      (n + suc i, λ j k. update_other pc i p j (λ e. absurd (omega arith)) ∙ h j (omega arith))
