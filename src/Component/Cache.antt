-- ===== src/Component/Cache.antt =====
-- internal/component/github/cache.go: `StaleAllowedCache`. Goroutines are numbered; each step is one
-- access to what they share, and the steps interleave in any order. `refreshInProgress` and
-- `refreshDone` are only used under the mutex, so that what follows a test of them up to the unlock
-- is one step. Times are in nanoseconds, and what the refresh function returns is left open.
pub mod Invariant
pub mod Changes
pub mod Safety
pub mod Progress
mod Tests
use mintmaker.Base.{
  ℕ, ◌+◌, ◌≤◌, ◌<◌, Bool, true, false, Option, none, some, Str, [], Dict, lookup, insert, ◌==◌,
  if◌then◌else◌, ◌≡◌, ◌≢◌,
}

-- A family of values by numbers, with one of them replaced.
unfoldable pub update {ℓ} : {A : Type ℓ} → (ℕ → A) → ℕ → A → ℕ → A
update f i a j = if i == j then a else f j

-- The mutex with its holder, the flag, the channel `refreshDone`, the number of channels made so
-- far, which names the next one, and whether a channel is closed.
pub record Sync : Type 0 where
  pub owner : Option ℕ
  pub in_progress : Bool
  pub refresh_done : ℕ
  pub channels : ℕ
  pub closed : ℕ → Bool

-- `data` and `expiry`, and the clock.
pub record Store (V : Type 0) : Type 0 where
  pub values : Dict V
  pub expiry : ℕ
  pub now : ℕ

-- Where a goroutine stands, with its live variables.
pub data Pc (V : Type 0) : Type 0 where
  idle : Pc V
  -- `Get`: the value is loaded, then the expiry
  loaded : Str → Option V → Pc V
  judging : Str → Option V → ℕ → Pc V
  -- `getWithRefresh`: before the lock, with the lock, and waiting for a channel
  locking : Str → Pc V
  locked : Str → Pc V
  waiting : Str → ℕ → Pc V
  woken : Str → Pc V
  -- the second look, with the lock
  loaded_again : Str → Option V → Pc V
  judging_again : Str → Option V → ℕ → Pc V
  -- the refresh, which is to close the channel: before the call, with the new value, with the value
  -- stored, and with the time read
  refreshing : Str → ℕ → Pc V
  refreshed : Str → ℕ → V → Pc V
  value_stored : Str → ℕ → V → Pc V
  time_read : Str → ℕ → V → ℕ → Pc V
  -- `cleanup`: before the lock, and with it
  cleaning : ℕ → Option V → Pc V
  closing : ℕ → Option V → Pc V
  returned : Option V → Pc V

abbrev pub unlock : Sync → Sync
unlock s = record s { owner = none }

-- `refreshInProgress = true; refreshDone = make(chan struct{})` and the unlock
abbrev pub begin : Sync → Sync
begin s = record s {
  owner = none;
  in_progress = true;
  refresh_done = s.channels;
  channels = s.channels + 1;
}

-- `refreshInProgress = false; close(refreshDone)` and the unlock
abbrev pub finish : ℕ → Sync → Sync
finish c s = record s { owner = none; in_progress = false; closed = update s.closed c true }

-- One step of goroutine `i`, with `refreshPeriod`.
pub data Move {V : Type 0} (period i : ℕ) (s : Sync) (d : Store V)
    : Pc V → Sync → Store V → Pc V → Type 0 where
  load : {key : Str} → Move period i s d idle s d (loaded key (lookup key d.values))
  load_expiry :
      {key : Str} {o : Option V} → Move period i s d (loaded key o) s d (judging key o d.expiry)
  fresh :
      {key : Str} {v : V} {e : ℕ}
      → d.now ≤ e
      → Move period i s d (judging key (some v) e) s d (returned (some v))
  missing : {key : Str} {e : ℕ} → Move period i s d (judging key none e) s d (locking key)
  stale :
      {key : Str} {v : V} {e : ℕ}
      → e < d.now
      → Move period i s d (judging key (some v) e) s d (locking key)
  lock :
      {key : Str}
      → s.owner ≡ none
      → Move period i s d (locking key) (record s { owner = some i }) d (locked key)
  join :
      {key : Str}
      → s.in_progress ≡ true
      → Move period i s d (locked key) (unlock s) d (waiting key s.refresh_done)
  wake : {key : Str} {c : ℕ} → s.closed c ≡ true → Move period i s d (waiting key c) s d (woken key)
  load_woken : {key : Str} → Move period i s d (woken key) s d (returned (lookup key d.values))
  load_again :
      {key : Str}
      → s.in_progress ≡ false
      → Move period i s d (locked key) s d (loaded_again key (lookup key d.values))
  load_expiry_again :
      {key : Str} {o : Option V}
      → Move period i s d (loaded_again key o) s d (judging_again key o d.expiry)
  fresh_again :
      {key : Str} {v : V} {e : ℕ}
      → d.now ≤ e
      → Move period i s d (judging_again key (some v) e) (unlock s) d (returned (some v))
  refresh_first :
      {key : Str} {e : ℕ}
      → Move period i s d (judging_again key none e) (begin s) d (refreshing key s.channels)
  succeed :
      {key : Str} {c : ℕ} (v : V) → Move period i s d (refreshing key c) s d (refreshed key c v)
  fail : {key : Str} {c : ℕ} → Move period i s d (refreshing key c) s d (cleaning c none)
  store :
      {key : Str} {c : ℕ} {v : V}
      → Move period i s d
          (refreshed key c v)
          s
          (record d { values = insert key v d.values })
          (value_stored key c v)
  read_time :
      {key : Str} {c : ℕ} {v : V}
      → Move period i s d (value_stored key c v) s d (time_read key c v d.now)
  store_expiry :
      {key : Str} {c t : ℕ} {v : V}
      → Move period i s d
          (time_read key c v t)
          s
          (record d { expiry = t + period })
          (cleaning c (some v))
  lock_cleanup :
      {c : ℕ} {o : Option V}
      → s.owner ≡ none
      → Move period i s d (cleaning c o) (record s { owner = some i }) d (closing c o)
  close : {c : ℕ} {o : Option V} → Move period i s d (closing c o) (finish c s) d (returned o)

-- The goroutines over one cache. One that has not begun stands at `idle`.
pub record System (V : Type 0) : Type 0 where
  pub sync : Sync
  pub store : Store V
  pub pc : ℕ → Pc V

-- A step of goroutine `i`. With stale data it begins a refresh, starts goroutine `j` for it, which
-- drops its result, and returns the old data.
pub data Step {V : Type 0} (period : ℕ) (s : System V) (i : ℕ) : System V → Type 0 where
  move :
      {y : Sync} {d : Store V} {p : Pc V}
      → Move period i s.sync s.store (s.pc i) y d p
      → Step period s i (record { sync = y; store = d; pc = update s.pc i p })
  refresh_behind :
      (j : ℕ) {key : Str} {v : V} {e : ℕ}
      → s.pc i ≡ judging_again key (some v) e
      → e < s.store.now
      → s.pc j ≡ idle
      → Step period s i (record {
        sync = begin s.sync;
        store = s.store;
        pc = update (update s.pc i (returned (some v))) j (refreshing key s.sync.channels);
      })

-- A step of some goroutine, or the clock.
pub data Next {V : Type 0} (period : ℕ) (s : System V) : System V → Type 0 where
  act : {t : System V} (i : ℕ) → Step period s i t → Next period s t
  tick : (t : ℕ) → s.store.now ≤ t → Next period s (record s { store = record s.store { now = t } })

-- `NewStaleAllowedCache` at a time; no goroutine has begun.
abbrev pub new_cache : {V : Type 0} → ℕ → ℕ → System V
new_cache period time = record {
  sync = record {
    owner = none;
    in_progress = false;
    refresh_done = 0;
    channels = 0;
    closed = λ c. false;
  };
  store = record { values = []; expiry = time + period; now = time };
  pc = λ i. idle;
}

pub data Reach {V : Type 0} (period : ℕ) : System V → Type 0 where
  start : (time : ℕ) → Reach period (new_cache period time)
  later : {s t : System V} → Reach period s → Next period s t → Reach period t
