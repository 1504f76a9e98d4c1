-- ===== src/Component/Git/Branches.antt =====
-- internal/component: which branches `GetBranches` returns, and the owner of a repository.
use mintmaker.Base.{
  Bool, true, false, List, [], ◌∷◌, Str, Result, ok, err, Error, In, ◌≡◌, ◌≢◌, ◌↔◌, refl, sym, ap,
  ◌∙◌, ◌⊎◌, inl, inr, Bool-cases,
}
use mintmaker.Component.Git.{
  BaseComponent, found_branches, some_branches, get_branches, branches_for, listed_branches,
  default_branches,
}

-- Exactly the versions that exist as branches.
abbrev pub IsFound : (Str → Bool) → List Str → List Str → Type 0
IsFound exists versions branches = (b : Str) → In b branches ↔ (In b versions × (exists b ≡ true))

IsFound-cons :
    (exists : Str → Bool) (v : Str) (versions : List Str)
    → IsFound exists versions (found_branches exists versions)
    → IsFound exists (v ∷ versions) (found_branches exists (v ∷ versions))
unfolding found_branches
IsFound-cons exists v versions h b = elim (Bool-cases (exists v)) [
  | inl on ↦ rw on (
    (λ k. elim k [
      | inl e ↦ (inl e, ap exists (sym e) ∙ on)
      | inr m ↦ (inr ((h b).0 m).0, ((h b).0 m).1)
    ]),
    (λ k. elim k.0 [ inl e ↦ inl e | inr m ↦ inr ((h b).1 (m, k.1)) ]),
  )
  | inr off ↦ rw off (
    (λ m. (inr ((h b).0 m).0, ((h b).0 m).1)),
    (λ k. elim k.0 [
      | inl e ↦ absurd (false_true (sym off ∙ ap exists e ∙ k.1))
      | inr m ↦ (h b).1 (m, k.1)
    ]),
  )
]
  where
    false_true : false ≡ true → ⊥
    false_true e = cc

found_branches-IsFound :
    (exists : Str → Bool) (versions : List Str)
    → IsFound exists versions (found_branches exists versions)
found_branches-IsFound exists [] =
    unfold found_branches in λ b. ((λ k. absurd k), (λ k. absurd k.0))
found_branches-IsFound exists (v ∷ versions) =
    IsFound-cons exists v versions (found_branches-IsFound exists versions)

-- What `GetBranches` may return, errors included.
abbrev pub Returns : List Str → Result (Str → Bool) → Result (List Str) → Type 0
Returns versions client (ok branches) =
    (exists : Str → Bool) × (client ≡ ok exists)
    × (branches ≢ [])
    × IsFound exists versions branches
Returns versions client (err e) =
    (client ≡ err e) ⊎ ((exists : Str → Bool) × (client ≡ ok exists) × IsFound exists versions [])

abbrev pub ReturnsDefault : Result Str → Result (List Str) → Type 0
ReturnsDefault default (ok branches) = (b : Str) × (default ≡ ok b) × (branches ≡ b ∷ [])
ReturnsDefault default (err e) = (x : Error) × (default ≡ err x)

some_branches-Returns :
    (exists : Str → Bool) (versions branches : List Str)
    → IsFound exists versions branches
    → Returns versions (ok exists) (some_branches branches)
unfolding some_branches
some_branches-Returns exists versions [] h = inr (exists, refl, h)
some_branches-Returns exists versions (b ∷ branches) h = (exists, refl, cons_nil, h)
  where
    cons_nil : (b ∷ branches) ≢ []
    cons_nil e = cc

listed_branches-Returns :
    (client : Result (Str → Bool)) (versions : List Str)
    → Returns versions client (listed_branches client versions)
unfolding listed_branches
listed_branches-Returns (err e) versions = inl refl
listed_branches-Returns (ok exists) versions =
    some_branches-Returns exists versions (found_branches exists versions)
      (found_branches-IsFound exists versions)

default_branches-ReturnsDefault :
    (default : Result Str) → ReturnsDefault default (default_branches default)
unfolding default_branches
default_branches-ReturnsDefault (err e) = (e, refl)
default_branches-ReturnsDefault (ok b) = (b, refl, refl)

-- The default branch counts for a component of the old model without a revision, else the versions.
abbrev pub ReturnsFor :
    Bool → Result Str → Result (Str → Bool) → List Str → Result (List Str) → Type 0
ReturnsFor true default client [] result = ReturnsDefault default result
ReturnsFor false default client [] result = Returns [] client result
ReturnsFor old default client (v ∷ versions) result = Returns (v ∷ versions) client result

branches_for-ReturnsFor :
    (old : Bool) (default : Result Str) (client : Result (Str → Bool)) (versions : List Str)
    → ReturnsFor old default client versions (branches_for old default client versions)
unfolding branches_for
branches_for-ReturnsFor true default client [] = default_branches-ReturnsDefault default
branches_for-ReturnsFor false default client [] = listed_branches-Returns client []
branches_for-ReturnsFor true default client (v ∷ versions) =
    listed_branches-Returns client (v ∷ versions)
branches_for-ReturnsFor false default client (v ∷ versions) =
    listed_branches-Returns client (v ∷ versions)

-- `GetBranches` of every platform: for a component of the old model without a revision it returns
-- the default branch alone, or an error if that is not to be had. Otherwise it returns the versions
-- that exist as branches, all of them and no others and at least one, or an error if the client is
-- not to be had or none of the versions is a branch.
pub get_branches-ReturnsFor :
    (c : BaseComponent) (default : Result Str) (client : Result (Str → Bool))
    → ReturnsFor c.old_crd_version default client c.versions (get_branches c default client)
unfolding get_branches
get_branches-ReturnsFor c default client =
    branches_for-ReturnsFor c.old_crd_version default client c.versions
