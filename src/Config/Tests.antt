-- ===== src/Config/Tests.antt =====
-- An example of internal/config/config.go: a file with a lifetime of zero and a short validity.
use mintmaker.Base.{true, none, [], codes, ok, str_eq, if◌then◌else◌}
use mintmaker.Config.{ConfigApi, Duration, get}
use mintmaker.Config.Valid.{IsValid, Holds, get-IsValid}

abbrev api : ConfigApi
api = record {
  getenv = λ name. [];
  read_file = λ path. ok (codes "{}");
  unmarshal = λ text. ok (record {
    token_ttl = codes "0m";
    token_min_validity = codes "10m";
    kite_enabled = true;
    kite_api_url = [];
  });
  parse_duration =
      λ s. if str_eq s (codes "0m") then ok (Duration.pos 0) else ok (Duration.pos 600000000000);
}

get-IsValid_example : IsValid (get api none).0 × Holds (get api none).1
get-IsValid_example = get-IsValid api none tt
