-- ===== src/Utils/Names/Facts.antt =====
-- internal/utils: the length and the bytes of random names and of hashes.
use mintmaker.Base.{
  ℕ, ◌*◌, ◌/◌, ◌%◌, ◌≤◌, ◌<◌, ◌≡◌, refl, true, [], ◌∷◌, Str, length, take, length-take, arith, All,
  inr, zero, suc,
}
use mintmaker.Utils.Label.{is_alphanumeric, is_label_byte, max_label}
use mintmaker.Utils.Label.Valid.{IsLabel, Ends}
use mintmaker.Utils.Names.{
  hex_digit, hex, random_size, random_string, repo_branch_key, repo_branch_hash,
}

abbrev pub IsByte : ℕ → Type 0
IsByte b = b < 256

length-hex : (bytes : Str) → length (hex bytes) ≡ 2 * length bytes
unfolding hex
length-hex [] = refl
length-hex (b ∷ bytes) = omega (arith, length-hex bytes)

hex_digit-alphanumeric : (n : ℕ) → n < 16 → is_alphanumeric (hex_digit n) ≡ true
unfolding is_alphanumeric hex_digit
hex_digit-alphanumeric n h = ground arith

hex-alphanumeric :
    (bytes : Str) → All IsByte bytes → All (λ c. is_alphanumeric c ≡ true) (hex bytes)
unfolding hex
hex-alphanumeric [] h = tt
hex-alphanumeric (b ∷ bytes) h = (
  hex_digit-alphanumeric (b / 16) (omega (arith, h.0)),
  (hex_digit-alphanumeric (b % 16) (omega arith), hex-alphanumeric bytes h.1),
)

take-All :
    (n : ℕ) (s : Str)
    → All (λ c. is_alphanumeric c ≡ true) s
    → All (λ c. is_alphanumeric c ≡ true) (take n s)
take-All zero s h = tt
take-All (suc n) [] h = tt
take-All (suc n) (c ∷ s) h = (h.0, take-All n s h.1)

-- `RandomString(n)` has n characters, and its slice never fails: the bytes that it reads are enough.
pub length-random_string :
    (n : ℕ) (bytes : Str) → length bytes ≡ random_size n → length (random_string n bytes) ≡ n
unfolding random_string
length-random_string n bytes h = omega (arith, length-take n (hex bytes), length-hex bytes)

alphanumeric_label :
    (s : Str) → All (λ c. is_alphanumeric c ≡ true) s → All (λ c. is_label_byte c ≡ true) s
unfolding is_label_byte
alphanumeric_label [] h = tt
alphanumeric_label (c ∷ s) h = (ground (arith, h.0), alphanumeric_label s h.1)

alphanumeric-Ends :
    (c : ℕ) (s : Str)
    → is_alphanumeric c ≡ true
    → All (λ d. is_alphanumeric d ≡ true) s
    → Ends (c ∷ s)
alphanumeric-Ends c [] h k = h
alphanumeric-Ends c (d ∷ s) h k = alphanumeric-Ends d s k.0 k.1

alphanumeric-IsLabel :
    (s : Str)
    → 0 < length s
    → length s ≤ max_label
    → All (λ c. is_alphanumeric c ≡ true) s
    → IsLabel s
alphanumeric-IsLabel [] h short k = elim h [ ]
alphanumeric-IsLabel (c ∷ s) h short k = record {
  short = short;
  allowed = alphanumeric_label (c ∷ s) k;
  ends = inr (k.0, alphanumeric-Ends c s k.0 k.1);
}

-- With a digest of 32 bytes, `RepoBranchHash` is a valid label value of 12 characters.
pub repo_branch_hash-IsLabel :
    (sha256 : Str → Str) (host repository branch : Str)
    → ((s : Str) → (length (sha256 s) ≡ 32) × All IsByte (sha256 s))
    → (length (repo_branch_hash sha256 host repository branch) ≡ 12)
      × IsLabel (repo_branch_hash sha256 host repository branch)
unfolding repo_branch_hash max_label
repo_branch_hash-IsLabel sha256 host repository branch digest =
    let sum = sha256 (repo_branch_key host repository branch) in
    let d = digest (repo_branch_key host repository branch) in
    let size : length (take 12 (hex sum)) ≡ 12 =
      omega (arith, length-take 12 (hex sum), length-hex sum, d.0) in
    (
      size,
      alphanumeric-IsLabel (take 12 (hex sum)) (omega (arith, size)) (omega (arith, size))
          (take-All 12 (hex sum) (hex-alphanumeric sum d.1)),
    )
