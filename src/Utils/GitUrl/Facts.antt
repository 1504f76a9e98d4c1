-- ===== src/Utils/GitUrl/Facts.antt =====
-- internal/utils/utils.go: the host of an SSH URL, and which platforms there are.
use mintmaker.Base.{
  ℕ, true, false, some, [], ◌∷◌, ◌++◌, Str, codes, cut, contains_str, has_prefix, All, Result, ok,
  err, ◌==◌, ◌≡◌, refl, ◌⊎◌, inl, inr, Bool-cases, arith, str_eq,
}
use mintmaker.Utils.GitUrl.{
  Url, get_git_host, ssh_host, host_part, first_platform, named_platform, platform_of_host,
  get_git_platform,
}

-- The first separator is where it was put.
cut-append :
    (sep : ℕ) (s t : Str) → All (λ c. (c == sep) ≡ false) s → cut sep (s ++ sep ∷ t) ≡ some (s, t)
unfolding cut
cut-append sep [] t h = ground arith
cut-append sep (c ∷ s) t h = rw (h.0, cut-append sep s t h.1) refl

-- The byte `@` stands in the text.
has_at : (s host path : Str) → contains_str ((s ++ b'@' ∷ host) ++ b':' ∷ path) (codes "@") ≡ true
unfolding contains_str has_prefix
has_at [] host path = refl
has_at (c ∷ s) host path = rw (has_at s host path) (ground arith)

abbrev pub Lacks : ℕ → Str → Type 0
Lacks sep = All (λ c. (c == sep) ≡ false)

Lacks-append : (sep : ℕ) (s t : Str) → Lacks sep s → Lacks sep t → Lacks sep (s ++ t)
Lacks-append sep [] t hs ht = ht
Lacks-append sep (c ∷ s) t hs ht = (hs.0, Lacks-append sep s t hs.1 ht)

-- The host of `user@host:path` is the text between the first `@` and the first `:`, where the user
-- has neither byte and the host no colon.
pub get_git_host-ssh :
    (parse : Str → Result Url) (user host path : Str)
    → Lacks b'@' user
    → Lacks b':' user
    → Lacks b':' host
    → get_git_host parse ((user ++ b'@' ∷ host) ++ b':' ∷ path) ≡ ok host
unfolding get_git_host ssh_host host_part
get_git_host-ssh parse user host path no_at no_colon host_colon =
    let address = user ++ b'@' ∷ host in
    let lacks = Lacks-append b':' user (b'@' ∷ host) no_colon (refl, host_colon) in
    rw (has_at user host path, cut-append b':' address path lacks, cut-append b'@' user host no_at)
      refl

-- The platforms that the program knows, each with what the host must contain; an earlier one wins.
abbrev pub IsPlatform : Str → Str → Type 0
IsPlatform host platform =
    ((platform ≡ codes "github") × (contains_str host (codes "github") ≡ true))
    ⊎ ((platform ≡ codes "gitlab")
        × (contains_str host (codes "github") ≡ false)
        × (contains_str host (codes "gitlab") ≡ true))
    ⊎ ((platform ≡ codes "forgejo")
        × (contains_str host (codes "github") ≡ false)
        × (contains_str host (codes "gitlab") ≡ false)
        × (contains_str host (codes "forge") ≡ true))

-- What the platform of a host is, errors included.
abbrev pub Classified : Result Str → Result Str → Type 0
Classified (err e) platform = platform ≡ err e
Classified (ok host) (ok platform) = IsPlatform host platform
Classified (ok host) (err e) =
    (contains_str host (codes "github") ≡ false)
    × (contains_str host (codes "gitlab") ≡ false)
    × (contains_str host (codes "forge") ≡ false)

platform_of_host-Classified :
    (url : Str) (host : Result Str) → Classified host (platform_of_host url host)
unfolding platform_of_host named_platform first_platform
platform_of_host-Classified url (err e) = refl
platform_of_host-Classified url (ok host) = elim (Bool-cases (contains_str host (codes "github"))) [
  | inl on ↦ rw on (unfold str_eq in inl (refl, on))
  | inr off ↦ elim (Bool-cases (contains_str host (codes "gitlab"))) [
    | inl on ↦ rw (off, on) (unfold str_eq in inr (inl (refl, off, on)))
    | inr off' ↦ elim (Bool-cases (contains_str host (codes "forge"))) [
      | inl on ↦ rw (off, off', on) (unfold str_eq in inr (inr (refl, off, off', on)))
      | inr off'' ↦ rw (off, off', off'') (off, off', off'')
    ]
  ]
]

-- The platform is GitHub, GitLab or Forgejo, as the host contains `github`, `gitlab` or `forge`, the
-- first of them that it contains; without any of them, and without a host, it is an error.
pub get_git_platform-Classified :
    (parse : Str → Result Url) (url : Str)
    → Classified (get_git_host parse url) (get_git_platform parse url)
unfolding get_git_platform
get_git_platform-Classified parse url = platform_of_host-Classified url (get_git_host parse url)
