-- ===== src/Component/Tokens/Tests.antt =====
-- Inputs of the examples of internal/component/github/cache.go, and the examples.
use mintmaker.Base.{◌+◌, ◌≤◌, refl, [], ◌∷◌, codes, str_eq, lookup}
use mintmaker.Component.Tokens.{
  TokenInfo, TokenCache, get_cached, usable, is_expiring, get_cached_bound,
}

abbrev fresh_token : TokenInfo
fresh_token = record { token = codes "ghs"; expires_at = 100 }

abbrev one_token : TokenCache
one_token = record { entries = (codes "app", fresh_token) ∷ [] }

get_cached_bound_example : 10 + 50 ≤ fresh_token.expires_at
unfolding get_cached usable is_expiring lookup str_eq
get_cached_bound_example = get_cached_bound 10 50 (codes "app") one_token fresh_token refl
