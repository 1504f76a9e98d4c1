-- ===== src/Osv/Retry.antt =====
-- tools/osv-generator/cve_parser.go: what `retryGet` returns.
use mintmaker.Base.{
  ℕ, zero, suc, ◌+◌, ◌<◌, ◌≤◌, Option, none, some, Str, codes, Result, err, Error, ◌≡◌, refl, sym,
  subst, ◌⊎◌, inl, inr, arith, Bool-cases, ◌==◌,
}
use mintmaker.Component.Git.{wrapped}
use mintmaker.Osv.Download.{Response, retry_get, all_failed}

-- The call had no answer with status 200.
abbrev pub IsUnanswered : Response → Type 0
IsUnanswered (Response.success body) = ⊥
IsUnanswered Response.refused = Unit
IsUnanswered (Response.failed e) = Unit

-- The first answer among these calls, or an error if there is none.
abbrev pub ReturnsFirst : (ℕ → Response) → ℕ → ℕ → Result Str → Type 0
ReturnsFirst get i left result =
    ((k : ℕ) × (body : Result Str) × (i ≤ k)
      × (k < i + left)
      × (get k ≡ Response.success body)
      × (result ≡ wrapped (codes "could not read response body: ") body)
      × ((j : ℕ) → i ≤ j → j < k → IsUnanswered (get j)))
    ⊎ ((e : Option Error) × (result ≡ err (all_failed e))
        × ((j : ℕ) → i ≤ j → j < i + left → IsUnanswered (get j)))

eq_or_below : (i j : ℕ) → i ≤ j → (i ≡ j) ⊎ (suc i ≤ j)
eq_or_below i j l = elim (Bool-cases (i == j)) [
  | inl on ↦ inl (ground arith)
  | inr off ↦ inr (ground arith)
]

module _ (get : ℕ → Response) (i : ℕ) (here : IsUnanswered (get i)) where
  IsUnanswered-from :
      (k : ℕ)
      → ((j : ℕ) → suc i ≤ j → j < k → IsUnanswered (get j))
      → (j : ℕ) → i ≤ j
      → j < k
      → IsUnanswered (get j)
  IsUnanswered-from k later j l h = elim (eq_or_below i j l) [
    | inl e ↦ subst (λ n. IsUnanswered (get n)) e here
    | inr below ↦ later j below h
  ]

  from_next :
      (left : ℕ) (result : Result Str)
      → ReturnsFirst get (suc i) left result
      → ReturnsFirst get i (suc left) result
  from_next left result (inl (k, body, low, high, answer, same, before)) =
      inl (k, body, omega arith, omega arith, answer, same, IsUnanswered-from k before)
  from_next left result (inr (e, same, all)) =
      inr (e, same, λ j l h. IsUnanswered-from (suc i + left) all j l (omega arith))

module _ (get : ℕ → Response) (left i : ℕ) (last : Option Error) where
  retried :
      (r : Response)
      → get i ≡ r
      → IsUnanswered r
      → (e : Option Error) × (retry_get get (suc left) i last ≡ retry_get get left (suc i) e)
  unfolding retry_get
  retried (Response.success body) h u = absurd u
  retried Response.refused h u = (none, rw (h, retry_get) refl)
  retried (Response.failed e) h u = (some e, rw (h, retry_get) refl)

  answered :
      (body : Result Str)
      → get i ≡ Response.success body
      → retry_get get (suc left) i last ≡ wrapped (codes "could not read response body: ") body
  unfolding retry_get
  answered body h = rw (h, retry_get) refl

  on_next :
      ((e : Option Error) → ReturnsFirst get (suc i) left (retry_get get left (suc i) e))
      → (r : Response) → get i ≡ r
      → ReturnsFirst get i (suc left) (retry_get get (suc left) i last)
  on_next next (Response.success body) h =
      inl (i, body, omega arith, omega arith, h, answered body h, λ j l k. absurd (below j l k))
    where
      below : (j : ℕ) → i ≤ j → j < i → ⊥
      below j l k = omega arith
  on_next next Response.refused h =
      let (e, step) = retried Response.refused h tt in
      subst (ReturnsFirst get i (suc left)) (sym step) (
        from_next get i (subst IsUnanswered (sym h) tt) left (retry_get get left (suc i) e)
          (next e))
  on_next next (Response.failed x) h =
      let (e, step) = retried (Response.failed x) h tt in
      subst (ReturnsFirst get i (suc left)) (sym step) (
        from_next get i (subst IsUnanswered (sym h) tt) left (retry_get get left (suc i) e)
          (next e))

-- `retryGet` makes at most as many calls as it is allowed and returns the body of the first answer
-- with status 200, or the error of reading it; it returns the error of all retries exactly if none of
-- these calls has such an answer.
pub retry_get-ReturnsFirst :
    (get : ℕ → Response) (left i : ℕ) (last : Option Error)
    → ReturnsFirst get i left (retry_get get left i last)
retry_get-ReturnsFirst get zero i last =
    inr (last, unfold retry_get in refl, λ j l h. absurd (nothing_between j l h))
  where
    nothing_between : (j : ℕ) → i ≤ j → j < i + 0 → ⊥
    nothing_between j l h = omega arith
retry_get-ReturnsFirst get (suc left) i last =
    on_next get left i last (λ e. retry_get-ReturnsFirst get left (suc i) e) (get i) refl
