-- ===== src/Config.antt =====
-- internal/config/config.go: the configuration of the controller. `json.Unmarshal`,
-- `time.ParseDuration`, the environment and the file come from outside; durations are in
-- nanoseconds.
mod Valid
mod Tests
use mintmaker.Base.{
  ℕ, zero, suc, ◌*◌, Bool, true, false, Option, none, some, List, [], ◌∷◌, Str, codes, is_empty,
  leb, Result, ok, err, Error, if◌then◌else◌,
}

-- `time.Duration`: a number, or the successor of one below zero
pub data Duration : Type 0 where
  pos : ℕ → Duration
  negsuc : ℕ → Duration

pub record GithubConfig : Type 0 where
  pub token_ttl : ℕ
  pub token_min_validity : ℕ

pub record KiteConfig : Type 0 where
  pub enabled : Bool
  pub api_url : Str

pub record Config : Type 0 where
  pub github : GithubConfig
  pub kite : KiteConfig

-- `fileConfig`, whose fields are empty where the file has none
pub record FileConfig : Type 0 where
  pub token_ttl : Str
  pub token_min_validity : Str
  pub kite_enabled : Bool
  pub kite_api_url : Str

-- What the package asks of other libraries and of the system
pub record ConfigApi : Type 0 where
  pub getenv : Str → Str
  pub read_file : Str → Result Str
  pub unmarshal : Str → Result FileConfig
  pub parse_duration : Str → Result Duration

abbrev minute : ℕ
minute = 60000000000

-- `defaultConfig`
unfoldable pub default_config : ConfigApi → Config
default_config api = record {
  github = record { token_ttl = 60 * minute; token_min_validity = 30 * minute };
  kite = record { enabled = false; api_url = api.getenv (codes "KITE_API_URL") };
}

-- A duration that is there and above zero, or else the default
unfoldable pub duration_or : ℕ → Result Duration → ℕ
duration_or default (err e) = default
duration_or default (ok (Duration.pos zero)) = default
duration_or default (ok (Duration.pos (suc n))) = suc n
duration_or default (ok (Duration.negsuc n)) = default

unfoldable pub settings : ConfigApi → FileConfig → Config
settings api file =
    let base = default_config api in
    record {
      github = record {
        token_ttl = duration_or base.github.token_ttl (api.parse_duration file.token_ttl);
        token_min_validity =
            duration_or base.github.token_min_validity (api.parse_duration file.token_min_validity);
      };
      kite = record {
        enabled = file.kite_enabled;
        api_url = if is_empty file.kite_api_url then base.kite.api_url else file.kite_api_url;
      };
    }

-- `validate`, true where it finds no error
unfoldable pub validate : Config → Bool
validate c = if leb c.github.token_ttl c.github.token_min_validity then false else true

unfoldable pub validated : ConfigApi → Config → Config
validated api c = if validate c then c else default_config api

-- `parse`
unfoldable pub parse : ConfigApi → Str → Config
parse api text = elim (api.unmarshal text) [
  | err e ↦ default_config api
  | ok file ↦ validated api (settings api file)
]

-- `load`
unfoldable pub load : ConfigApi → Str → Config
load api path = elim (api.read_file path) [ err e ↦ default_config api | ok text ↦ parse api text ]

unfoldable pub path_or : Str → Str
path_or path = if is_empty path then codes "/etc/mintmaker/config.json" else path

-- `Get`, which reads and keeps `instance`
unfoldable pub get : ConfigApi → Option Config → Config × Option Config
get api (some c) = (c, some c)
get api none =
    let c = load api (path_or (api.getenv (codes "MINTMAKER_CONFIG_PATH"))) in (c, some c)
