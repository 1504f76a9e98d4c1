-- ===== src/Component/Cache/Safety.antt =====
-- internal/component/github/cache.go: the goroutines that refresh.
use mintmaker.Base.{ℕ, false, none, some, ◌≡◌, refl, sym, ap, ◌∙◌, subst, inr, arith}
use mintmaker.Component.Cache.{update, Sync, Store, Pc, idle, returned, unlock, begin, System}
use mathlib.Core.Path.{fun_ext}
use mintmaker.Component.Cache.{Move, Step, Next, Reach}
use mintmaker.Component.Cache.Invariant.{true-false, holding, deciding, leads, waits, QuietAt, Inv}
use mintmaker.Component.Cache.Changes.{keep-Inv, acquire-Inv, release-Inv, finish-Inv, begin-Inv}

update-update :
    {A : Type 0} (f : ℕ → A) (i : ℕ) (a b : A) → update (update f i a) i b ≡ update f i b
unfolding update
update-update f i a b = fun_ext λ j. ground arith

module _ {V : Type 0} (y : Sync) (pc : ℕ → Pc V) (inv : Inv y pc) (i : ℕ) where
  module _ (q p : Pc V) (from : pc i ≡ q) where
    kept :
        holding p ≡ holding q
        → leads p ≡ leads q
        → waits p ≡ none
        → QuietAt y i p
        → Inv y (update pc i p)
    kept locks leading no_wait decides =
        keep-Inv y pc inv i p (locks ∙ ap holding (sym from)) (leading ∙ ap leads (sym from))
          no_wait decides

    plain :
        holding p ≡ holding q
        → leads p ≡ leads q
        → waits p ≡ none
        → deciding p ≡ false
        → Inv y (update pc i p)
    plain locks leading no_wait undecided =
        kept locks leading no_wait (λ k. absurd (true-false (sym k ∙ undecided)))

  Move-Inv :
      {period : ℕ} {d d' : Store V} {y' : Sync} {q p : Pc V}
      → pc i ≡ q
      → Move period i y d q y' d' p
      → Inv y' (update pc i p)
  Move-Inv from Move.load = plain _ _ from refl refl refl refl
  Move-Inv from Move.load_expiry = plain _ _ from refl refl refl refl
  Move-Inv from (Move.fresh h) = plain _ _ from refl refl refl refl
  Move-Inv from Move.missing = plain _ _ from refl refl refl refl
  Move-Inv from (Move.stale h) = plain _ _ from refl refl refl refl
  Move-Inv from (Move.lock free) =
      acquire-Inv y pc inv i _ free refl refl (sym (ap leads from)) refl
  Move-Inv from (Move.join on) =
      release-Inv y pc inv i _ (ap holding from) refl refl (sym (ap leads from))
        (λ c h. inr (on, cc))
  Move-Inv from (Move.wake h) = plain _ _ from refl refl refl refl
  Move-Inv from Move.load_woken = plain _ _ from refl refl refl refl
  Move-Inv from (Move.load_again off) = kept _ _ from refl refl refl (λ _. off)
  Move-Inv from Move.load_expiry_again =
      kept _ _ from refl refl refl (λ _. inv.quiet i (ap deciding from))
  Move-Inv from (Move.fresh_again h) =
      release-Inv y pc inv i _ (ap holding from) refl refl (sym (ap leads from)) (λ c h'. cc)
  Move-Inv from Move.refresh_first =
      let parked : Pc V = idle in
      let free =
        release-Inv y pc inv i parked (ap holding from) refl refl (sym (ap leads from))
          (λ c h. cc) in
      subst (Inv (begin y)) (update-update pc i idle _) (
        begin-Inv (unlock y) (update pc i idle) free i _ refl (inv.quiet i (ap deciding from)) refl
          refl refl refl)
  Move-Inv from (Move.succeed v) = plain _ _ from refl refl refl refl
  Move-Inv from Move.fail = plain _ _ from refl refl refl refl
  Move-Inv from Move.store = plain _ _ from refl refl refl refl
  Move-Inv from Move.read_time = plain _ _ from refl refl refl refl
  Move-Inv from Move.store_expiry = plain _ _ from refl refl refl refl
  Move-Inv from (Move.lock_cleanup free) =
      acquire-Inv y pc inv i _ free refl refl (sym (ap leads from)) refl
  Move-Inv from (Move.close {c = c}) =
      finish-Inv y pc inv i _ (ap holding from) refl c (ap leads from) refl refl

module _ {V : Type 0} where
  Step-Inv : {period i : ℕ} {s t : System V} → Step period s i t → Inv s.sync s.pc → Inv t.sync t.pc
  Step-Inv {i = i} {s = s} (Step.move m) inv = Move-Inv s.sync s.pc inv i refl m
  Step-Inv {i = i} {s = s} (Step.refresh_behind j {v = v} from late off) inv =
      let free =
        release-Inv s.sync s.pc inv i (returned (some v)) (ap holding from) refl refl
          (sym (ap leads from)) (λ c h. cc) in
      begin-Inv (unlock s.sync) (update s.pc i (returned (some v))) free j _ refl
        (inv.quiet i (ap deciding from)) refl refl refl refl

  Next-Inv : {period : ℕ} {s t : System V} → Next period s t → Inv s.sync s.pc → Inv t.sync t.pc
  Next-Inv (Next.act i st) inv = Step-Inv st inv
  Next-Inv (Next.tick t h) inv = inv

  pub Reach-Inv : {period : ℕ} {s : System V} → Reach period s → Inv s.sync s.pc
  Reach-Inv (Reach.start time) = record {
    leader = 0;
    lock = λ i h. cc;
    held = λ i h. cc;
    quiet = λ i h. refl;
    lead = λ i c h. cc;
    led = λ h. cc;
    opened = λ h. cc;
    made = λ h. cc;
    wait = λ i c h. cc;
    unmade = λ c h. refl;
    few = (0, λ j h. refl);
  }
  Reach-Inv (Reach.later r st) = Next-Inv st (Reach-Inv r)

  -- However the goroutines interleave, two of them never refresh the cache at the same time, and the
  -- channel that a refresh is to close is still open, so that no channel is closed twice.
  pub Reach-one_refresh :
      {period : ℕ} {s : System V}
      → Reach period s
      → (i j c d : ℕ) → leads (s.pc i) ≡ some c
      → leads (s.pc j) ≡ some d
      → (i ≡ j) × (c ≡ d) × (s.sync.closed c ≡ false)
  Reach-one_refresh {s = s} r i j c d hi hj =
      let inv = Reach-Inv r in
      let (i_leads, on, here) = inv.lead i c hi in
      let (j_leads, _, there) = inv.lead j d hj in
      (
        i_leads ∙ sym j_leads,
        sym here ∙ there,
        subst (λ k. s.sync.closed k ≡ false) here (inv.opened on),
      )
