-- ===== src/Utils/Names.antt =====
-- internal/utils/random.go, and `RepoBranchHash` of internal/utils/sanitize.go. The random bytes
-- and SHA-256 come from outside.
pub mod Facts
mod Tests
use mintmaker.Base.{ℕ, ◌+◌, ◌-◌, ◌/◌, ◌%◌, [], ◌∷◌, ◌++◌, Str, codes, take, ltb, if◌then◌else◌}

unfoldable pub hex_digit : ℕ → ℕ
hex_digit n = if ltb n 10 then b'0' + n else b'a' + n - 10

-- `hex.EncodeToString`, and `%x` of bytes
unfoldable pub hex : Str → Str
hex [] = []
hex (b ∷ bytes) = hex_digit (b / 16) ∷ hex_digit (b % 16) ∷ hex bytes

-- How many bytes `RandomString` reads.
abbrev pub random_size : ℕ → ℕ
random_size length = length / 2 + 1

-- `RandomString` on the bytes that it read
unfoldable pub random_string : ℕ → Str → Str
random_string length bytes = take length (hex bytes)

-- `"%s/%s@%s"` of host, repository and branch
unfoldable pub repo_branch_key : Str → Str → Str → Str
repo_branch_key host repository branch =
    host ++ (codes "/" ++ (repository ++ (codes "@" ++ branch)))

-- `RepoBranchHash`, over the digest function
unfoldable pub repo_branch_hash : (Str → Str) → Str → Str → Str → Str
unfolding repo_branch_key
repo_branch_hash sha256 host repository branch =
    take 12 (hex (sha256 (repo_branch_key host repository branch)))
