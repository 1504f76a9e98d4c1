-- ===== src/Config/Valid.antt =====
-- internal/config/config.go: what always holds of the configuration.
use mintmaker.Base.{
  ℕ, zero, suc, ◌<◌, true, Option, none, some, Str, codes, Result, ok, err, ◌≡◌, Bool-cases, inl,
  inr, arith,
}
use mintmaker.Config.{
  Duration, Config, FileConfig, ConfigApi, default_config, duration_or, settings, validate,
  validated, parse, load, path_or, get,
}

-- Both durations are above zero, and a new token is usable for some time.
abbrev pub IsValid : Config → Type 0
IsValid c = (0 < c.github.token_min_validity) × (c.github.token_min_validity < c.github.token_ttl)

-- What is kept is valid.
abbrev pub Holds : Option Config → Type 0
Holds none = Unit
Holds (some c) = IsValid c

default_config-IsValid : (api : ConfigApi) → IsValid (default_config api)
unfolding default_config
default_config-IsValid api = (omega arith, omega arith)

duration_or_positive : (default : ℕ) (d : Result Duration) → 0 < default → 0 < duration_or default d
unfolding duration_or
duration_or_positive default (err e) h = h
duration_or_positive default (ok (Duration.pos zero)) h = h
duration_or_positive default (ok (Duration.pos (suc n))) h = omega arith
duration_or_positive default (ok (Duration.negsuc n)) h = h

settings_positive :
    (api : ConfigApi) (file : FileConfig) → 0 < (settings api file).github.token_min_validity
settings_positive api file =
    unfold settings default_config in
    duration_or_positive _ (api.parse_duration file.token_min_validity)
      (default_config-IsValid api).0

validate_lem : (c : Config) → validate c ≡ true → c.github.token_min_validity < c.github.token_ttl
unfolding validate
validate_lem c h = ground arith

validated-IsValid :
    (api : ConfigApi) (c : Config) → 0 < c.github.token_min_validity → IsValid (validated api c)
unfolding validated
validated-IsValid api c positive = elim (Bool-cases (validate c)) [
  | inl on ↦ rw on (positive, validate_lem c on)
  | inr off ↦ rw off (default_config-IsValid api)
]

parse-IsValid : (api : ConfigApi) (text : Str) → IsValid (parse api text)
unfolding parse
parse-IsValid api text =
    elim (api.unmarshal text)
      as (λ r.
        IsValid
          (elim r [ err e ↦ default_config api | ok file ↦ validated api (settings api file) ])) [
            | err e ↦ default_config-IsValid api
            | ok file ↦ validated-IsValid api (settings api file) (settings_positive api file)
          ]

load-IsValid : (api : ConfigApi) (path : Str) → IsValid (load api path)
unfolding load
load-IsValid api path =
    elim (api.read_file path)
      as (λ r. IsValid (elim r [ err e ↦ default_config api | ok text ↦ parse api text ])) [
        | err e ↦ default_config-IsValid api
        | ok text ↦ parse-IsValid api text
      ]

-- Whatever the file and the environment hold, `Get` returns a configuration whose durations are
-- above zero and in which a token's minimum validity is less than its lifetime, and keeps that one,
-- if what it kept before was such a configuration.
pub get-IsValid :
    (api : ConfigApi) (instance' : Option Config)
    → Holds instance'
    → IsValid (get api instance').0 × Holds (get api instance').1
unfolding get
get-IsValid api none h = (
  load-IsValid api (path_or (api.getenv (codes "MINTMAKER_CONFIG_PATH"))),
  load-IsValid api (path_or (api.getenv (codes "MINTMAKER_CONFIG_PATH"))),
)
get-IsValid api (some c) h = (h, h)
