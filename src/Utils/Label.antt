-- ===== src/Utils/Label.antt =====
-- internal/utils/sanitize.go: `NormalizeLabelValue` and the key of `RepoBranchHash`.
-- The regular expressions are written out over bytes. Each class is the complement of ASCII
-- characters, so a rune of several bytes is a run of bytes that the class takes.
pub mod Valid
mod Tests
use mintmaker.Base.{
  ℕ, Bool, true, false, ◌&&◌, ◌||◌, [], ◌∷◌, Str, ltb, leb, ◌==◌, length, take, replace_byte,
  if◌then◌else◌,
}

-- `[A-Za-z0-9]`
unfoldable pub is_alphanumeric : ℕ → Bool
is_alphanumeric c =
    (leb b'A' c && leb c b'Z') || (leb b'a' c && leb c b'z') || (leb b'0' c && leb c b'9')

-- `[A-Za-z0-9_.-]`
unfoldable pub is_label_byte : ℕ → Bool
is_label_byte c = is_alphanumeric c || c == b'_' || c == b'.' || c == b'-'

-- `^[^A-Za-z0-9]+` replaced by nothing
unfoldable pub strip_leading : Str → Str
strip_leading [] = []
strip_leading (c ∷ s) = let rest = strip_leading s in if is_alphanumeric c then c ∷ s else rest

-- `[^A-Za-z0-9]+$` replaced by nothing
unfoldable pub strip_trailing : Str → Str
strip_trailing [] = []
strip_trailing (c ∷ s) = elim (strip_trailing s) [
  | [] ↦ if is_alphanumeric c then c ∷ [] else []
  | d ∷ t ↦ c ∷ d ∷ t
]

-- `[^A-Za-z0-9_.-]+` replaced by one underscore; the flag says that the run has begun
unfoldable pub squeeze : Bool → Str → Str
squeeze in_run [] = []
squeeze in_run (c ∷ s) =
    let copy = c ∷ squeeze false s in
    let skip = squeeze true s in
    if is_label_byte c then copy else if in_run then skip else b'_' ∷ skip

-- The longest label value of Kubernetes.
unfoldable pub max_label : ℕ
max_label = 63

-- `sanitized[:63]` where the value is longer
unfoldable pub truncate : Str → Str
truncate s = if ltb max_label (length s) then take max_label s else s

unfoldable pub normalize_label_value : Str → Str
normalize_label_value value =
    squeeze false (strip_trailing (strip_leading (truncate (replace_byte b'/' b'_' value))))
