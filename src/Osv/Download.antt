-- ===== src/Osv/Download.antt =====
-- tools/osv-generator/cve_parser.go: the retries of a download, without the waits between them.
use mintmaker.Base.{ℕ, zero, suc, Option, none, some, Str, codes, Result, err, Error, failure}
use mintmaker.Component.Secrets.{wrap}
use mintmaker.Component.Git.{wrapped}

-- What a call of `http.Get` gives: the body of an answer with status 200, or the error of its
-- reading; another answer; or no answer.
pub data Response : Type 0 where
  success : Result Str → Response
  refused : Response
  failed : Error → Response

-- The error at the end, with the last one, which is nil after another answer
unfoldable pub all_failed : Option Error → Error
all_failed none = failure (codes "all retries failed: %!w(<nil>)")
all_failed (some e) = wrap (codes "all retries failed: ") e

-- `retryGet`: the calls that are left, the number of the next one and the last error
unfoldable pub retry_get : (ℕ → Response) → ℕ → ℕ → Option Error → Result Str
retry_get get zero i last = err (all_failed last)
retry_get get (suc left) i last = elim (get i) [
  | success body ↦ wrapped (codes "could not read response body: ") body
  | refused ↦ retry_get get left (suc i) none
  | failed e ↦ retry_get get left (suc i) (some e)
]
