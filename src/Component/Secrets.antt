-- ===== src/Component/Secrets.antt =====
-- The choice of a secret for a repository: `GetRPMActivationKey` and `getActivationKeyFromSecret`
-- of internal/component/base/base.go, and `lookupSecret` and `GetToken` of
-- internal/component/gitlab/gitlab.go and internal/component/forgejo/forgejo.go, which hold the
-- same loop; internal/slices/slice.go. The order in which Go ranges over the map of matches is a
-- parameter.
pub mod Score
pub mod Best
pub mod Entries
pub mod Grade
pub mod Choice
pub mod Serves
pub mod Keys
pub mod Activation
mod Tests
use mintmaker.Base.{
  ℕ, ◌+◌, Bool, true, false, not, ◌&&◌, Option, none, some, List, [], ◌∷◌, ◌++◌, map, Str, codes,
  str_eq, contains, is_empty, split, has_suffix, trim_prefix, trim_suffix, ltb, Dict, lookup,
  get_elem?, Error, Result, ok, err, not_found, failure, if◌then◌else◌,
}
use mintmaker.Cluster.Objects.{Secret}

-- `Filter`
unfoldable pub filter {ℓ} : {A : Type ℓ} → (A → Bool) → List A → List A
filter test [] = []
filter test (x ∷ xs) = let rest = filter test xs in if test x then x ∷ rest else rest

-- `Intersection`
unfoldable pub intersection : List Str → List Str → ℕ
intersection [] ts = 0
intersection (s ∷ ss) [] = 0
intersection (s ∷ ss) (t ∷ ts) = let rest = intersection ss ts in if str_eq s t then rest + 1 else 0

-- `strings.TrimPrefix(strings.TrimSuffix(repository, "/"), "/")`
unfoldable pub trim_slashes : Str → Str
trim_slashes repository = trim_prefix b'/' (trim_suffix repository (codes "/"))

unfoldable pub scm_repository : Str
scm_repository = codes "appstudio.redhat.com/scm.repository"

-- The repositories of a secret, or none for one that is for the host only.
unfoldable pub repositories_of : Secret → Option (List Str)
repositories_of s = elim (lookup scm_repository s.annotations) [
  | none ↦ none
  | some label ↦ if is_empty label then none else some (map trim_slashes (split b',' label))
]

-- The parts of the repository that one wildcard matches.
unfoldable pub wildcard_parts : Str → Str → ℕ
wildcard_parts repository wildcard =
    intersection (split b'/' repository) (split b'/' (trim_suffix wildcard (codes "*")))

-- The loop over the wildcards; the number is `potentialMatches[index]`.
unfoldable pub count_parts : Str → List Str → ℕ → ℕ
count_parts repository [] count = count
count_parts repository (w ∷ wildcards) count =
    let i = wildcard_parts repository w in
    let raised = count_parts repository wildcards i in
    let same = count_parts repository wildcards count in
    if ltb 0 i && ltb count i then raised else same

-- `strings.HasSuffix(s, "*")`
unfoldable pub is_wildcard : Str → Bool
is_wildcard s = has_suffix s (codes "*")

unfoldable pub best_parts : Str → List Str → ℕ
best_parts repository repositories = count_parts repository (filter is_wildcard repositories) 0

-- `hostOnlySecrets`, and the entries of `potentialMatches`: an index with its count.
pub record Matches : Type 0 where
  pub host_only : List Secret
  pub potential : List (ℕ × ℕ)

-- A secret that names the repository ends the loop.
pub data Scan : Type 0 where
  exact : Secret → Scan
  matches : Matches → Scan

-- The entry for an index is made when a count above zero is stored.
unfoldable pub add_match : ℕ → ℕ → Matches → Matches
add_match index count found =
    if ltb 0 count
    then record found { potential = found.potential ++ (index, count) ∷ [] }
    else found

-- The loop over the secrets.
unfoldable pub scan : Str → ℕ → List Secret → Matches → Scan
scan repository index [] found = Scan.matches found
scan repository index (s ∷ secrets) found = elim (repositories_of s) [
  | none ↦
      scan repository (index + 1) secrets (record found { host_only = found.host_only ++ s ∷ [] })
  | some repositories ↦
      let rest =
        scan repository (index + 1) secrets
          (add_match index (best_parts repository repositories) found) in
      if contains repositories repository then Scan.exact s else rest
]

-- The loop over the map: the best index and its count so far.
unfoldable pub best_match : List (ℕ × ℕ) → ℕ × ℕ → ℕ × ℕ
best_match [] best = best
best_match ((i, count) ∷ entries) (best_index, best_count) =
    let better = best_match entries (i, count) in
    let same = best_match entries (best_index, best_count) in
    if ltb best_count count then better else same

-- What follows the loop over the secrets.
unfoldable pub pick : (List (ℕ × ℕ) → List (ℕ × ℕ)) → List Secret → Scan → Option Secret
pick order secrets (Scan.exact s) = some s
pick order secrets (Scan.matches found) = elim found.potential [
  | [] ↦ elim found.host_only [ [] ↦ none | s ∷ rest ↦ some s ]
  | entry ∷ entries ↦ get_elem? secrets (best_match (order (entry ∷ entries)) (0, 0)).0
]

-- The secret that is chosen for the repository.
unfoldable pub choose : (List (ℕ × ℕ) → List (ℕ × ℕ)) → Str → List Secret → Option Secret
choose order repository secrets =
    pick order secrets (scan repository 0 secrets (record { host_only = []; potential = [] }))

-- `string(secret.Data[key])`
unfoldable pub data_value : Secret → Str → Str
data_value s key = elim (lookup key s.values) [ none ↦ [] | some v ↦ v ]

unfoldable pub incomplete : Secret → Result (Str × Str)
incomplete s =
    err (failure (codes "secret " ++ (s.name ++ codes " doesn't contain activation key or org")))

-- `getActivationKeyFromSecret`; none is the nil pointer.
unfoldable pub activation_key_from : Option Secret → Result (Str × Str)
activation_key_from none = err (failure (codes "no viable activation key secret has been found"))
activation_key_from (some s) =
    if is_empty (data_value s (codes "activationkey"))
    then incomplete s
    else if is_empty (data_value s (codes "org"))
    then incomplete s
    else ok (data_value s (codes "activationkey"), data_value s (codes "org"))

-- The two reads of the cluster that the lookups do: a secret by namespace and name, and the
-- secrets of a namespace with some labels.
pub record SecretReader : Type 0 where
  pub get_secret : Str → Str → Result Secret
  pub list_secrets : Str → Dict Str → Result (List Secret)

unfoldable pub credential_labels : Str → Str → Dict Str
credential_labels credentials host =
    (codes "appstudio.redhat.com/credentials", credentials)
    ∷ (codes "appstudio.redhat.com/scm.host", host)
    ∷ []

-- `secret.Type == type && len(secret.Data) > 0`
unfoldable pub is_candidate : Str → Secret → Bool
is_candidate type s = str_eq s.type type && elim s.values [ [] ↦ false | v ∷ vs ↦ true ]

-- The secret `activation-key`, or none for any error.
unfoldable pub default_secret : SecretReader → Str → Option Secret
default_secret reader namespace = elim (reader.get_secret namespace (codes "activation-key")) [
  | ok s ↦ some s
  | err e ↦ none
]

unfoldable pub opaque_type : Str
opaque_type = codes "Opaque"

unfoldable pub chosen_or_default : Option Secret → Option Secret → Option Secret
chosen_or_default default none = default
chosen_or_default default (some s) = some s

-- What the answer to the listing makes of the default secret. Nothing is chosen from no secrets,
-- so that the return for an empty list is a case of none.
unfoldable pub key_secret_of :
    (List (ℕ × ℕ) → List (ℕ × ℕ)) → Str → Option Secret → Result (List Secret) → Option Secret
key_secret_of order repository default (err e) = default
key_secret_of order repository default (ok items) =
    chosen_or_default default (choose order repository (filter (is_candidate opaque_type) items))

-- The secret whose key is taken.
unfoldable pub key_secret :
    SecretReader → (List (ℕ × ℕ) → List (ℕ × ℕ)) → Str → Str → Str → Option Secret
unfolding key_secret_of
key_secret reader order namespace host repository =
    key_secret_of order repository (default_secret reader namespace)
      (reader.list_secrets namespace (credential_labels (codes "rpm") host))

-- `GetRPMActivationKey`
unfoldable pub get_rpm_activation_key :
    SecretReader → (List (ℕ × ℕ) → List (ℕ × ℕ)) → Str → Str → Str → Result (Str × Str)
get_rpm_activation_key reader order namespace host repository =
    activation_key_from (key_secret reader order namespace host repository)

-- `fmt.Errorf` with `%w`, which keeps the kind of the error
unfoldable pub wrap : Str → Error → Error
wrap context not_found = not_found
wrap context (failure message) = failure (context ++ message)

unfoldable pub chosen_or_error : Option Secret → Result Secret
chosen_or_error none = err (failure (codes "no secrets available for component"))
chosen_or_error (some s) = ok s

-- `lookupSecret` from the filtered secrets on
unfoldable pub choose_secret :
    (List (ℕ × ℕ) → List (ℕ × ℕ)) → Str → Str → List Secret → Result Secret
choose_secret order host repository [] =
    err (failure (codes "no secrets available for git host " ++ host))
choose_secret order host repository (s ∷ secrets) =
    chosen_or_error (choose order repository (s ∷ secrets))

unfoldable pub scm_type : Str
scm_type = codes "kubernetes.io/basic-auth"

-- `lookupSecret`
unfoldable pub lookup_secret :
    SecretReader → (List (ℕ × ℕ) → List (ℕ × ℕ)) → Str → Str → Str → Result Secret
lookup_secret reader order namespace host repository =
    elim (reader.list_secrets namespace (credential_labels (codes "scm") host)) [
      | err e ↦
          err
            (wrap (codes "failed to list scm secrets in namespace " ++ (namespace ++ codes ": ")) e)
      | ok items ↦ choose_secret order host repository (filter (is_candidate scm_type) items)
    ]

-- `GetToken` of GitLab and Forgejo
unfoldable pub get_token :
    SecretReader → (List (ℕ × ℕ) → List (ℕ × ℕ)) → Str → Str → Str → Result Str
get_token reader order namespace host repository =
    elim (lookup_secret reader order namespace host repository) [
      | err e ↦ err e
      | ok s ↦ ok (data_value s (codes "password"))
    ]
