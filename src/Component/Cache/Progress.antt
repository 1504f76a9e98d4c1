-- ===== src/Component/Cache/Progress.antt =====
-- internal/component/github/cache.go: which goroutine can make the next step.
use mintmaker.Base.{
  ℕ, Bool, true, false, none, some, ◌≡◌, refl, sym, ap, ◌∙◌, subst, inl, inr, Bool-cases,
  Option-cases, Str, arith, ltb,
}
use mintmaker.Component.Cache.{
  Sync, Store, Pc, idle, loaded, judging, locking, locked, waiting, woken, loaded_again,
  judging_again, refreshing, refreshed, value_stored, time_read, cleaning, closing, returned,
  System, Move, Step, Reach,
}
use mintmaker.Component.Cache.Invariant.{holding, leads, waits, Inv}
use mintmaker.Component.Cache.Safety.{Reach-Inv}

module _ {V : Type 0} where
  -- The goroutine has begun and has not returned.
  abbrev pub is_busy : Pc V → Bool
  is_busy idle = false
  is_busy (returned _) = false
  is_busy _ = true

  -- Goroutine `j` is busy and has a next step.
  abbrev pub CanStep : ℕ → System V → ℕ → Type 0
  CanStep period s j = (is_busy (s.pc j) ≡ true) × (t : System V) × Step period s j t

  module _ (period : ℕ) (s : System V) (inv : Inv s.sync s.pc) where
    by_move :
        (j : ℕ) (q : Pc V) {y : Sync} {d : Store V} {p : Pc V}
        → s.pc j ≡ q
        → is_busy q ≡ true
        → Move period j s.sync s.store q y d p
        → CanStep period s j
    by_move j q {y = y} {d = d} {p = p} e busy m = (
      ap is_busy e ∙ busy,
      _,
      Step.move (subst (λ x. Move period j s.sync s.store x y d p) (sym e) m),
    )

    judge_again : (j : ℕ) (q : Pc V) → s.pc j ≡ q → holding q ≡ true → CanStep period s j
    judge_again j (locked key) e h = elim (Bool-cases s.sync.in_progress) [
      | inl on ↦ by_move j _ e refl (Move.join on)
      | inr off ↦ by_move j _ e refl (Move.load_again off)
    ]
    judge_again j (loaded_again key o) e h = by_move j _ e refl Move.load_expiry_again
    judge_again j (judging_again key none x) e h = by_move j _ e refl Move.refresh_first
    judge_again j (judging_again key (some v) x) e h = elim (Bool-cases (ltb x s.store.now)) [
      | inl late ↦
          let (n, unbegun) = inv.few in
          (ap is_busy e, _, Step.refresh_behind n e (ground arith) (unbegun n (omega arith)))
      | inr early ↦ by_move j _ e refl (Move.fresh_again (ground arith))
    ]
    judge_again j (closing c o) e h = by_move j _ e refl Move.close
    judge_again j _ e h = cc

    -- The holder of the mutex has a next step.
    holder_steps : (j : ℕ) → s.sync.owner ≡ some j → CanStep period s j
    holder_steps j h = judge_again j (s.pc j) refl (inv.held j h)

    Someone : Type 0
    Someone = (j : ℕ) × CanStep period s j

    -- With the mutex free the goroutine takes it, else its holder has a step.
    locking_steps :
        (j : ℕ) (q p : Pc V)
        → s.pc j ≡ q
        → is_busy q ≡ true
        → (s.sync.owner ≡ none
            → Move period j s.sync s.store q (record s.sync { owner = some j }) s.store p)
        → Someone
    unfolding Someone
    locking_steps j q p e busy m = elim (Option-cases s.sync.owner) [
      | inl free ↦ (j, by_move j q e busy (m free))
      | inr (k, h) ↦ (k, holder_steps k h)
    ]

    leader_steps : (j c : ℕ) (q : Pc V) → s.pc j ≡ q → leads q ≡ some c → Someone
    unfolding Someone
    leader_steps j c (refreshing key x) e h = (j, by_move j _ e refl Move.fail)
    leader_steps j c (refreshed key x v) e h = (j, by_move j _ e refl Move.store)
    leader_steps j c (value_stored key x v) e h = (j, by_move j _ e refl Move.read_time)
    leader_steps j c (time_read key x v t) e h = (j, by_move j _ e refl Move.store_expiry)
    leader_steps j c (cleaning x o) e h = locking_steps j _ _ e refl Move.lock_cleanup
    leader_steps j c (closing x o) e h = (j, by_move j _ e refl Move.close)
    leader_steps j c _ e h = cc

    waiting_steps : (j c : ℕ) (key : Str) → s.pc j ≡ waiting key c → Someone
    unfolding Someone
    waiting_steps j c key e = elim (inv.wait j c (ap waits e)) [
      | inl closed ↦ (j, by_move j _ e refl (Move.wake closed))
      | inr (on, h) ↦
          leader_steps inv.leader s.sync.refresh_done (s.pc inv.leader) refl (inv.led on)
    ]

    busy_steps : (j : ℕ) (q : Pc V) → s.pc j ≡ q → is_busy q ≡ true → Someone
    unfolding Someone
    busy_steps j idle e h = cc
    busy_steps j (returned o) e h = cc
    busy_steps j (loaded key o) e h = (j, by_move j _ e refl Move.load_expiry)
    busy_steps j (judging key none x) e h = (j, by_move j _ e refl Move.missing)
    busy_steps j (judging key (some v) x) e h = elim (Bool-cases (ltb x s.store.now)) [
      | inl late ↦ (j, by_move j _ e refl (Move.stale (ground arith)))
      | inr early ↦ (j, by_move j _ e refl (Move.fresh (ground arith)))
    ]
    busy_steps j (locking key) e h = locking_steps j _ _ e refl Move.lock
    busy_steps j (waiting key c) e h = waiting_steps j c key e
    busy_steps j (woken key) e h = (j, by_move j _ e refl Move.load_woken)
    busy_steps j (locked key) e h = (j, judge_again j _ e refl)
    busy_steps j (loaded_again key o) e h = (j, judge_again j _ e refl)
    busy_steps j (judging_again key o x) e h = (j, judge_again j _ e refl)
    busy_steps j (refreshing key c) e h = leader_steps j c _ e refl
    busy_steps j (refreshed key c v) e h = leader_steps j c _ e refl
    busy_steps j (value_stored key c v) e h = leader_steps j c _ e refl
    busy_steps j (time_read key c v t) e h = leader_steps j c _ e refl
    busy_steps j (cleaning c o) e h = leader_steps j c _ e refl
    busy_steps j (closing c o) e h = leader_steps j c _ e refl

  -- No deadlock: in every state that the goroutines reach, if one of them has begun and not
  -- returned, then some goroutine that has begun and not returned has a next step. In particular a
  -- goroutine that waits for a refresh can go on, or the one that refreshes can be helped to its end.
  pub Reach-progress :
      {period : ℕ} {s : System V}
      → Reach period s
      → (i : ℕ) → is_busy (s.pc i) ≡ true
      → (j : ℕ) × CanStep period s j
  unfolding Someone
  Reach-progress {period = period} {s = s} r i busy =
      busy_steps period s (Reach-Inv r) i (s.pc i) refl busy
