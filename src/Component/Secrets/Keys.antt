-- ===== src/Component/Secrets/Keys.antt =====
-- internal/component: the secret that `lookupSecret` returns.
use mintmaker.Base.{
  ℕ, ◌≡◌, ◌≢◌, ◌↔◌, refl, Bool, true, false, Option, none, some, List, [], ◌∷◌, ◌++◌, Str, codes,
  In, Error, Result, ok, err, sym, subst, str_eq, str_eq_iff, ◌&&◌,
}
use mintmaker.Cluster.Objects.{Secret}
use mintmaker.Component.Secrets.{
  SecretReader, choose, choose_secret, chosen_or_error, lookup_secret, credential_labels, wrap,
  is_candidate, scm_type, filter,
}
use mintmaker.Component.Secrets.Entries.{filter-In}
use mintmaker.Component.Secrets.Serves.{IsBest, choose-IsBest}

-- A secret of the listing that has the type and some data.
abbrev pub IsCandidate : Str → List Secret → Secret → Type 0
IsCandidate type items s = In s items × (s.type ≡ type) × (s.values ≢ [])

module _ (type : Str) (s : Secret) where
  has_data :
      (values : List (Str × Str))
      → (elim values [ [] ↦ false | v ∷ vs ↦ true ]) ≡ true
      → values ≢ []
  has_data [] h e = cc
  has_data (v ∷ vs) h e = cc

  data_there :
      (values : List (Str × Str))
      → values ≢ []
      → (elim values [ [] ↦ false | v ∷ vs ↦ true ]) ≡ true
  data_there [] h = absurd (h refl)
  data_there (v ∷ vs) h = refl

  both_true : (a b : Bool) → (a && b) ≡ true → (a ≡ true) × (b ≡ true)
  both_true true true h = (refl, refl)
  both_true true false h = cc
  both_true false b h = cc

  candidate_true : is_candidate type s ≡ true → (s.type ≡ type) × (s.values ≢ [])
  unfolding is_candidate
  candidate_true h =
      let both = both_true (str_eq s.type type) _ h in
      ((str_eq_iff s.type type).0 both.0, has_data s.values both.1)

  true_candidate : s.type ≡ type → s.values ≢ [] → is_candidate type s ≡ true
  unfolding is_candidate
  true_candidate e filled = rw (data_there s.values filled, (str_eq_iff s.type type).1 e) refl

pub filter-IsCandidate :
    (type : Str) (items : List Secret) (s : Secret)
    → In s (filter (is_candidate type) items) ↔ IsCandidate type items s
filter-IsCandidate type items s = (
  (λ h.
      let (k, t) = (filter-In (is_candidate type) items s).0 h in
      (k, (candidate_true type s t).0, (candidate_true type s t).1)),
  λ (k, e, filled). (filter-In (is_candidate type) items s).1 (k, true_candidate type s e filled),
)

pub IsBest-candidates :
    (repository type : Str) (items : List Secret) (chosen : Option Secret)
    → IsBest repository (λ t. In t (filter (is_candidate type) items)) chosen
    → IsBest repository (IsCandidate type items) chosen
IsBest-candidates repository type items none h = λ t k. h t ((filter-IsCandidate type items t).1 k)
IsBest-candidates repository type items (some s) (k, n, g, top) = (
  (filter-IsCandidate type items s).0 k,
  n,
  g,
  λ t h. top t ((filter-IsCandidate type items t).1 h),
)

-- The labels that the secrets of a host are listed by.
abbrev pub host_labels : Str → Str → List (Str × Str)
host_labels credentials host =
    (codes "appstudio.redhat.com/credentials", credentials)
    ∷ (codes "appstudio.redhat.com/scm.host", host)
    ∷ []

-- For a listing that fails, an error. Else the best of the candidates, or an error if none of them
-- serves the repository.
abbrev pub Returns : Str → Result (List Secret) → Result Secret → Type 0
Returns repository (err e) result = (x : Error) × (result ≡ err x)
Returns repository (ok items) (ok s) =
    IsBest repository (IsCandidate (codes "kubernetes.io/basic-auth") items) (some s)
Returns repository (ok items) (err e) =
    IsBest repository (IsCandidate (codes "kubernetes.io/basic-auth") items) none

module _ (order : List (ℕ × ℕ) → List (ℕ × ℕ))
    (order_In : (entries : List (ℕ × ℕ)) (entry : ℕ × ℕ)
      → In entry (order entries) ↔ In entry entries)
    (host repository : Str) where
  chosen-Returns :
      (items : List Secret) (chosen : Option Secret)
      → IsBest repository (IsCandidate (codes "kubernetes.io/basic-auth") items) chosen
      → Returns repository (ok items) (chosen_or_error chosen)
  unfolding chosen_or_error
  chosen-Returns items none h = h
  chosen-Returns items (some s) h = h

  choose_secret-Returns :
      (items candidates : List Secret)
      → filter (is_candidate scm_type) items ≡ candidates
      → Returns repository (ok items) (choose_secret order host repository candidates)
  unfolding choose_secret scm_type
  choose_secret-Returns items [] e = λ t k m g.
      subst (In t) e ((filter-IsCandidate (codes "kubernetes.io/basic-auth") items t).1 k)
  choose_secret-Returns items (s ∷ candidates) e =
      chosen-Returns items (choose order repository (s ∷ candidates)) (
        IsBest-candidates repository (codes "kubernetes.io/basic-auth") items
          (choose order repository (s ∷ candidates))
          (subst (λ l. IsBest repository (λ t. In t l) (choose order repository (s ∷ candidates)))
            (sym e) (choose-IsBest order repository (s ∷ candidates) order_In)))

  lookup_secret_failed :
      (reader : SecretReader) (namespace : Str) (e : Error)
      → reader.list_secrets namespace (host_labels (codes "scm") host) ≡ err e
      → (x : Error) × (lookup_secret reader order namespace host repository ≡ err x)
  unfolding lookup_secret credential_labels
  lookup_secret_failed reader namespace e h = (
    wrap (codes "failed to list scm secrets in namespace " ++ (namespace ++ codes ": ")) e,
    rw (h, lookup_secret) refl,
  )

  lookup_secret_listed :
      (reader : SecretReader) (namespace : Str) (items : List Secret)
      → reader.list_secrets namespace (host_labels (codes "scm") host) ≡ ok items
      → lookup_secret reader order namespace host repository
        ≡ choose_secret order host repository (filter (is_candidate scm_type) items)
  unfolding lookup_secret credential_labels
  lookup_secret_listed reader namespace items e = rw (e, lookup_secret) refl

  lookup_secret-listed :
      (reader : SecretReader) (namespace : Str) (listed : Result (List Secret))
      → reader.list_secrets namespace (host_labels (codes "scm") host) ≡ listed
      → Returns repository listed (lookup_secret reader order namespace host repository)
  lookup_secret-listed reader namespace (err e) h = lookup_secret_failed reader namespace e h
  lookup_secret-listed reader namespace (ok items) h =
      subst (Returns repository (ok items)) (sym (lookup_secret_listed reader namespace items h))
        (choose_secret-Returns items (filter (is_candidate scm_type) items) refl)

-- `lookupSecret` of GitLab and Forgejo: if the secrets of the host cannot be listed, it fails. Else it
-- returns a secret with basic authentication and some data that serves the repository, of the greatest
-- grade of them, and it fails exactly if none of them serves it.
pub lookup_secret-Returns :
    (order : List (ℕ × ℕ) → List (ℕ × ℕ)) (host repository : Str) (reader : SecretReader)
    (namespace : Str)
    → ((entries : List (ℕ × ℕ)) (entry : ℕ × ℕ) → In entry (order entries) ↔ In entry entries)
    → Returns repository
        (reader.list_secrets namespace (host_labels (codes "scm") host))
        (lookup_secret reader order namespace host repository)
lookup_secret-Returns order host repository reader namespace order_In =
    lookup_secret-listed order order_In host repository reader namespace
      (reader.list_secrets namespace (host_labels (codes "scm") host)) refl
