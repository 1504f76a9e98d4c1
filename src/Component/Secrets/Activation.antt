-- ===== src/Component/Secrets/Activation.antt =====
-- internal/component/base/base.go: the key and the organisation that `GetRPMActivationKey` returns.
use mintmaker.Base.{
  ℕ, ◌≡◌, ◌≢◌, ◌↔◌, refl, ◌⊎◌, inl, inr, true, false, Option, none, some, List, [], ◌∷◌, Str, codes,
  In, Result, ok, err, is_empty, sym, ap, ◌∙◌, subst, lookup,
}
use mintmaker.Cluster.Objects.{Secret}
use mintmaker.Component.Secrets.{
  SecretReader, choose, credential_labels, is_candidate, filter, data_value, activation_key_from,
  incomplete, key_secret, get_rpm_activation_key, default_secret, opaque_type, chosen_or_default,
  key_secret_of,
}
use mintmaker.Component.Secrets.Serves.{IsBest, choose-IsBest}
use mintmaker.Component.Secrets.Keys.{IsCandidate, IsBest-candidates, host_labels}

abbrev pub HasValue : Secret → Str → Str → Type 0
HasValue s key v = (lookup key s.values ≡ some v) × (v ≢ [])

abbrev pub LacksValue : Secret → Str → Type 0
LacksValue s key = (lookup key s.values ≡ none) ⊎ (lookup key s.values ≡ some [])

-- The pair is the data of the secret and neither part of it is empty; an error means that there is no
-- secret, or that a part is missing or empty.
abbrev pub KeyOf : Option Secret → Result (Str × Str) → Type 0
KeyOf none (ok pair) = ⊥
KeyOf none (err e) = Unit
KeyOf (some s) (ok (key, org)) =
    HasValue s (codes "activationkey") key × HasValue s (codes "org") org
KeyOf (some s) (err e) = LacksValue s (codes "activationkey") ⊎ LacksValue s (codes "org")

module _ (s : Secret) (key : Str) where
  data_none : lookup key s.values ≡ none → data_value s key ≡ []
  unfolding data_value
  data_none h = rw (h, data_value) refl

  data_some : (v : Str) → lookup key s.values ≡ some v → data_value s key ≡ v
  unfolding data_value
  data_some v h = rw (h, data_value) refl

  -- A value is either lacking, or there and not empty.
  value_cases :
      (LacksValue s key × (is_empty (data_value s key) ≡ true))
      ⊎ (HasValue s key (data_value s key) × (is_empty (data_value s key) ≡ false))
  value_cases = on (lookup key s.values) refl
    where
      on :
          (o : Option Str)
          → lookup key s.values ≡ o
          → (LacksValue s key × (is_empty (data_value s key) ≡ true))
            ⊎ (HasValue s key (data_value s key) × (is_empty (data_value s key) ≡ false))
      on none h = inl (inl h, ap is_empty (data_none h))
      on (some []) h = inl (inr h, ap is_empty (data_some [] h))
      on (some (c ∷ v)) h =
          let same = data_some (c ∷ v) h in
          inr ((h ∙ ap some (sym same), λ e. filled (sym same ∙ e)), ap is_empty same)
        where
          filled : (c ∷ v) ≡ [] → ⊥
          filled e = cc

activation_key_from-KeyOf : (source : Option Secret) → KeyOf source (activation_key_from source)
unfolding activation_key_from incomplete
activation_key_from-KeyOf none = tt
activation_key_from-KeyOf (some s) = elim (value_cases s (codes "activationkey")) [
  | inl (lacking, on) ↦ rw on (inl lacking)
  | inr (key, off) ↦ elim (value_cases s (codes "org")) [
    | inl (lacking, on) ↦ rw (off, on) (inr lacking)
    | inr (org, off') ↦ rw (off, off') (key, org)
  ]
]

abbrev pub found_secret : Result Secret → Option Secret
found_secret (err e) = none
found_secret (ok s) = some s

-- Without a list of the secrets the default one is taken; with one, the best of those that serve
-- the repository, and the default one exactly if none of them does.
abbrev pub IsSettled : Str → Result Secret → Result (List Secret) → Option Secret → Type 0
IsSettled repository default (err e) source = source ≡ found_secret default
IsSettled repository default (ok items) source =
    ((source ≡ found_secret default) × IsBest repository (IsCandidate (codes "Opaque") items) none)
    ⊎ ((s : Secret) × (source ≡ some s)
        × IsBest repository (IsCandidate (codes "Opaque") items) (some s))

settle-IsSettled :
    (repository : Str) (default : Result Secret) (items : List Secret) (chosen : Option Secret)
    → IsBest repository (IsCandidate (codes "Opaque") items) chosen
    → IsSettled repository default (ok items) (chosen_or_default (found_secret default) chosen)
unfolding chosen_or_default
settle-IsSettled repository default items none h = inl (refl, h)
settle-IsSettled repository default items (some s) h = inr (s, refl, h)

default_secret-found :
    (reader : SecretReader) (namespace : Str) (r : Result Secret)
    → reader.get_secret namespace (codes "activation-key") ≡ r
    → default_secret reader namespace ≡ found_secret r
unfolding default_secret
default_secret-found reader namespace (err e) h = rw (h, default_secret) refl
default_secret-found reader namespace (ok s) h = rw (h, default_secret) refl

module _ (order : List (ℕ × ℕ) → List (ℕ × ℕ))
    (order_In : (entries : List (ℕ × ℕ)) (entry : ℕ × ℕ)
      → In entry (order entries) ↔ In entry entries)
    (repository : Str) where
  key_secret_of-IsSettled :
      (default : Result Secret) (listed : Result (List Secret))
      → IsSettled repository default listed
          (key_secret_of order repository (found_secret default) listed)
  unfolding key_secret_of opaque_type
  key_secret_of-IsSettled default (err e) = refl
  key_secret_of-IsSettled default (ok items) =
      let candidates = filter (is_candidate (codes "Opaque")) items in
      settle-IsSettled repository default items (choose order repository candidates) (
        IsBest-candidates repository (codes "Opaque") items (choose order repository candidates)
          (choose-IsBest order repository candidates order_In))

-- The secret that `GetRPMActivationKey` reads is the default one, if it is there, where the secrets of
-- the host cannot be listed; else it is one of the opaque ones with some data that serves the
-- repository, of the greatest grade of them, and the default one exactly if none of them serves it.
-- A key is returned with an organisation exactly if there is such a secret and it has both of them,
-- not empty, and they are its data.
pub get_rpm_activation_key-KeyOf :
    (reader : SecretReader) (order : List (ℕ × ℕ) → List (ℕ × ℕ)) (namespace host repository : Str)
    → ((entries : List (ℕ × ℕ)) (entry : ℕ × ℕ) → In entry (order entries) ↔ In entry entries)
    → (source : Option Secret) × IsSettled repository
        (reader.get_secret namespace (codes "activation-key"))
        (reader.list_secrets namespace (host_labels (codes "rpm") host))
        source
      × KeyOf source (get_rpm_activation_key reader order namespace host repository)
unfolding get_rpm_activation_key key_secret credential_labels
get_rpm_activation_key-KeyOf reader order namespace host repository order_In =
    let default : Result Secret = reader.get_secret namespace (codes "activation-key") in
    let listed : Result (List Secret) =
      reader.list_secrets namespace (host_labels (codes "rpm") host) in
    let source : Option Secret =
      key_secret_of order repository (default_secret reader namespace) listed in
    (
      source,
      subst (λ d. IsSettled repository default listed (key_secret_of order repository d listed))
          (sym (default_secret-found reader namespace default refl))
          (key_secret_of-IsSettled order order_In repository default listed),
      activation_key_from-KeyOf source,
    )
