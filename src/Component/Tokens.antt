-- ===== src/Component/Tokens.antt =====
-- internal/component/github/cache.go: `TokenCache`. Times and the configured duration, which
-- is not negative, are in nanoseconds; its lock makes each operation one step.
mod Tests
use mintmaker.Base.{
  ℕ, ◌+◌, ◌≤◌, Bool, true, false, Option, none, some, List, [], ◌∷◌, Str, str_eq, str_eq_iff, ltb,
  Dict, lookup, insert, lookup-insert, if◌then◌else◌, ◌≡◌, refl, subst, Bool-cases, inl, inr, arith,
}

pub record TokenInfo : Type 0 where
  pub token : Str
  pub expires_at : ℕ

pub record TokenCache : Type 0 where
  pub entries : Dict TokenInfo

-- `TokenCache.Set`
unfoldable pub set_token : Str → TokenInfo → TokenCache → TokenCache
set_token key info cache = record { entries = insert key info cache.entries }

-- `time.Until(entry.ExpiresAt) < cfg.TokenMinValidity`, with the present time added to both sides
unfoldable pub is_expiring : ℕ → ℕ → TokenInfo → Bool
is_expiring now min_validity info = ltb info.expires_at (now + min_validity)

unfoldable pub usable : ℕ → ℕ → Option TokenInfo → Option TokenInfo
usable now min_validity none = none
usable now min_validity (some info) = if is_expiring now min_validity info then none else some info

-- `TokenCache.Get` at a time
unfoldable pub get_cached : ℕ → ℕ → Str → TokenCache → Option TokenInfo
get_cached now min_validity key cache = usable now min_validity (lookup key cache.entries)

-- After `Set`, a `Get` of that key finds the new token, unless it is close to its expiry, and a
-- `Get` of any other key finds what it found before.
pub get_cached-set_token :
    (now min_validity : ℕ) (key other : Str) (info : TokenInfo) (cache : TokenCache)
    → get_cached now min_validity other (set_token key info cache) ≡ (
        if str_eq key other
        then usable now min_validity (some info)
        else get_cached now min_validity other cache)
unfolding get_cached set_token
get_cached-set_token now min_validity key other info cache = elim (Bool-cases (str_eq key other)) [
  | inl on ↦ rw (lookup-insert key other info cache.entries, on) refl
  | inr off ↦ rw (lookup-insert key other info cache.entries, off) refl
]

abbrev LastsIf : ℕ → ℕ → Option TokenInfo → Type 0
LastsIf now min_validity none = Unit
LastsIf now min_validity (some info) = now + min_validity ≤ info.expires_at

usable-LastsIf :
    (now min_validity : ℕ) (found : Option TokenInfo)
    → LastsIf now min_validity (usable now min_validity found)
unfolding usable is_expiring
usable-LastsIf now min_validity none = tt
usable-LastsIf now min_validity (some info) =
    elim (Bool-cases (ltb info.expires_at (now + min_validity))) [
      | inl on ↦ rw on tt
      | inr off ↦ rw off (ground arith)
    ]

-- A token that `Get` returns is valid for at least the configured time.
pub get_cached_bound :
    (now min_validity : ℕ) (key : Str) (cache : TokenCache) (info : TokenInfo)
    → get_cached now min_validity key cache ≡ some info
    → now + min_validity ≤ info.expires_at
unfolding get_cached
get_cached_bound now min_validity key cache info h =
    subst (LastsIf now min_validity) h (usable-LastsIf now min_validity (lookup key cache.entries))
