-- ===== src/Component/Secrets/Tests.antt =====
-- A few secrets for the examples of the lookups of internal/component, and the examples.
use mintmaker.Base.{ℕ, ◌↔◌, List, [], ◌∷◌, Str, codes, ok, err, not_found, In, Option}
use mintmaker.Cluster.Objects.{Secret}
use mintmaker.Component.Secrets.{
  SecretReader, choose, scm_type, lookup_secret, get_rpm_activation_key,
}
use mintmaker.Component.Secrets.Serves.{IsBest, choose-IsBest}
use mintmaker.Component.Secrets.Keys.{Returns, lookup_secret-Returns}
use mintmaker.Component.Secrets.Activation.{KeyOf, IsSettled, get_rpm_activation_key-KeyOf}

abbrev secret : Str → Str → Str → Secret
secret name type repositories = record {
  name = name;
  namespace = codes "team";
  type = type;
  labels = [];
  annotations = (codes "appstudio.redhat.com/scm.repository", repositories) ∷ [];
  values =
      (codes "password", codes "x")
      ∷ (codes "activationkey", codes "k")
      ∷ (codes "org", codes "o")
      ∷ [];
  string_values = [];
  owners = [];
}

abbrev basic_secrets : List Secret
basic_secrets =
    secret (codes "host") scm_type (codes "")
    ∷ secret (codes "group") scm_type (codes "org/*,other")
    ∷ secret (codes "repo") scm_type (codes "/org/repo/")
    ∷ []

abbrev rpm_secrets : List Secret
rpm_secrets = secret (codes "rpm") (codes "Opaque") (codes "org/*") ∷ []

abbrev reader : List Secret → SecretReader
reader secrets = record {
  get_secret = λ namespace name. err not_found;
  list_secrets = λ namespace labels. ok secrets;
}

abbrev in_order : List (ℕ × ℕ) → List (ℕ × ℕ)
in_order entries = entries

in_order-In :
    (entries : List (ℕ × ℕ)) (entry : ℕ × ℕ) → In entry (in_order entries) ↔ In entry entries
in_order-In entries entry = (λ h. h, λ h. h)

choose-IsBest_example :
    IsBest
      (codes "org/repo")
      (λ t. In t basic_secrets)
      (choose in_order (codes "org/repo") basic_secrets)
choose-IsBest_example = choose-IsBest in_order (codes "org/repo") basic_secrets in_order-In

lookup_secret-Returns_example : Returns (codes "org/repo") (ok basic_secrets) (
    lookup_secret
      (reader basic_secrets)
      in_order
      (codes "team")
      (codes "gitlab.com")
      (codes "org/repo"))
lookup_secret-Returns_example =
    lookup_secret-Returns in_order (codes "gitlab.com") (codes "org/repo") (reader basic_secrets)
      (codes "team") in_order-In

get_rpm_activation_key-KeyOf_example :
    (source : Option Secret) × IsSettled (codes "org/repo") (err not_found) (ok rpm_secrets) source
    × KeyOf source (
        get_rpm_activation_key
          (reader rpm_secrets)
          in_order
          (codes "team")
          (codes "gitlab.com")
          (codes "org/repo"))
get_rpm_activation_key-KeyOf_example =
    get_rpm_activation_key-KeyOf (reader rpm_secrets) in_order (codes "team") (codes "gitlab.com")
      (codes "org/repo") in_order-In
