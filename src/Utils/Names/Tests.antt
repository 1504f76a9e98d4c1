-- ===== src/Utils/Names/Tests.antt =====
-- Inputs of the examples of internal/utils/random.go and of `RepoBranchHash`, and the examples.
use mintmaker.Base.{ℕ, zero, suc, ◌<◌, ◌%◌, ◌≡◌, refl, [], ◌∷◌, Str, codes, length, All, arith}
use mintmaker.Utils.Label.Valid.{IsLabel}
use mintmaker.Utils.Names.{repo_branch_hash}
use mintmaker.Utils.Names.Facts.{IsByte, repo_branch_hash-IsLabel}

-- As many bytes of the same value.
abbrev repeated : ℕ → ℕ → Str
repeated zero b = []
repeated (suc n) b = b ∷ repeated n b

abbrev digest : Str → Str
digest s = repeated 32 (length s % 256)

length-repeated : (n b : ℕ) → length (repeated n b) ≡ n
length-repeated zero b = refl
length-repeated (suc n) b = omega (arith, length-repeated n b)

repeated-IsByte : (n b : ℕ) → b < 256 → All IsByte (repeated n b)
repeated-IsByte zero b h = tt
repeated-IsByte (suc n) b h = (h, repeated-IsByte n b h)

abbrev hashed : Str
hashed = repo_branch_hash digest (codes "gitlab.com") (codes "org/repo") (codes "main")

repo_branch_hash-IsLabel_example : (length hashed ≡ 12) × IsLabel hashed
repo_branch_hash-IsLabel_example =
    repo_branch_hash-IsLabel digest (codes "gitlab.com") (codes "org/repo") (codes "main") (λ s.
      (length-repeated 32 (length s % 256), repeated-IsByte 32 (length s % 256) (omega arith)))
