-- ===== src/Base/Maps.antt =====
-- A Go map with string keys as an association list; a nil map is the empty list.
use mathlib.Core.Path.{◌≡◌, refl}
use mathlib.Core.Bool.{Bool, true, false}
use mathlib.Core.List.{List, [], ◌∷◌}
use mathlib.Core.Option.{Option, none, some}
use native.Mathlib.Omega.{arith}
use mintmaker.Base.Tests.{if◌then◌else◌}
use mintmaker.Base.Strings.{Str, str_eq, str_eq_iff, str_eq_refl}

abbrev pub Dict {ℓ} : Type ℓ → Type ℓ
Dict V = List (Str × V)

module _ {ℓ} {V : Type ℓ} where
  -- `v, exists := m[k]`
  unfoldable pub lookup : Str → Dict V → Option V
  lookup k [] = none
  lookup k ((j, v) ∷ m) = if str_eq j k then some v else lookup k m

  -- `m[k] = v`
  unfoldable pub insert : Str → V → Dict V → Dict V
  insert k v [] = (k, v) ∷ []
  insert k v ((j, w) ∷ m) = if str_eq j k then (k, v) ∷ m else (j, w) ∷ insert k v m

  -- `for key, value := range entries { m[key] = value }`
  unfoldable pub insert_all : Dict V → Dict V → Dict V
  insert_all [] m = m
  insert_all ((k, v) ∷ entries) m = insert_all entries (insert k v m)

  pub lookup-insert :
      (k j : Str) (v : V) (m : Dict V)
      → lookup j (insert k v m) ≡ (if str_eq k j then some v else lookup j m)
  unfolding lookup insert
  lookup-insert k j v [] = refl
  lookup-insert k j v ((i, w) ∷ m) =
      ground (arith, str_eq_iff k j, str_eq_iff i k, str_eq_iff i j, lookup-insert k j v m)

-- `m[k] == s` under `exists`
unfoldable pub has_value : Dict Str → Str → Str → Bool
has_value m k s = elim (lookup k m) [ none ↦ false | some v ↦ str_eq v s ]

pub has_value-lookup : (m : Dict Str) (k s : Str) → lookup k m ≡ some s → has_value m k s ≡ true
unfolding has_value
has_value-lookup m k s e = rw (e, has_value) (str_eq_refl s)

module _ {ℓ} {V : Type ℓ} where
  -- A Go map holds each key once.
  abbrev pub HasDistinctKeys : Dict V → Type ℓ
  HasDistinctKeys [] = Unit
  HasDistinctKeys ((k, v) ∷ m) = (lookup k m ≡ none) × HasDistinctKeys m

  -- The new value where there is one, else the old one.
  abbrev pub override : Option V → Option V → Option V
  override none old = old
  override (some v) old = some v

  pub insert_all-override :
      (ls m : Dict V) (j : Str)
      → HasDistinctKeys ls
      → lookup j (insert_all ls m) ≡ override (lookup j ls) (lookup j m)
  unfolding insert_all lookup
  insert_all-override [] m j h = refl
  insert_all-override ((k, v) ∷ ls) m j h =
      rw (insert_all-override ls (insert k v m) j h.1, lookup-insert k j v m)
        (ground (arith, str_eq_iff k j, h.0))
