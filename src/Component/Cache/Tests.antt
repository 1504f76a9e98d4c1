-- ===== src/Component/Cache/Tests.antt =====
-- A short run of `StaleAllowedCache` for the examples, and the examples.
use mintmaker.Base.{ℕ, lookup, some, Str, codes, false, ◌≡◌, refl}
use mintmaker.Component.Cache.{update, System, Move, Step, Next, Reach, new_cache}
use mintmaker.Component.Cache.Invariant.{leads}
use mintmaker.Component.Cache.Safety.{Reach-one_refresh}
use mintmaker.Component.Cache.Progress.{CanStep, Reach-progress}

-- Goroutine 3 finds no data and begins a refresh.
refresh_begun : (s : System Str) × Reach 100 s × (leads (s.pc 3) ≡ some 0)
unfolding update lookup
refresh_begun =
    let created : Reach 100 (new_cache {V = Str} 100 0) = Reach.start 0 in
    let loaded = Reach.later created (Next.act 3 (Step.move (Move.load {key = codes "k"}))) in
    let judging = Reach.later loaded (Next.act 3 (Step.move Move.load_expiry)) in
    let locking = Reach.later judging (Next.act 3 (Step.move Move.missing)) in
    let locked = Reach.later locking (Next.act 3 (Step.move (Move.lock refl))) in
    let loaded_again = Reach.later locked (Next.act 3 (Step.move (Move.load_again refl))) in
    let judging_again = Reach.later loaded_again (Next.act 3 (Step.move Move.load_expiry_again)) in
    (_, Reach.later judging_again (Next.act 3 (Step.move Move.refresh_first)), refl)

abbrev begun : System Str
begun = refresh_begun.0

Reach-one_refresh_example : (◌≡◌ {A = ℕ} 3 3) × (◌≡◌ {A = ℕ} 0 0) × (begun.sync.closed 0 ≡ false)
Reach-one_refresh_example =
    Reach-one_refresh refresh_begun.1 3 3 0 0 refresh_begun.2 refresh_begun.2

Reach-progress_example : (j : ℕ) × CanStep 100 begun j
unfolding refresh_begun update
Reach-progress_example = Reach-progress refresh_begun.1 3 refl
