-- ===== src/Controller/Filter/Selected.antt =====
-- internal/controller/common.go: which components a namespace's applications select.
use mintmaker.Base.{
  Bool, true, false, List, [], ◌∷◌, Str, str_eq, str_eq→eq, str_eq_iff, ap, ◌∙◌, ◌≢◌, In, In-append,
  if◌then◌else◌, ◌≡◌, refl, sym, ◌⊎◌, inl, inr,
}
use mintmaker.Cluster.Objects.{AppComponent, ApplicationSpec}
use mintmaker.Controller.Filter.{
  of_application, first_named, all_named, select_application, select_applications,
  select_components,
}

-- The application asks for the component: by its name, or by naming none.
abbrev pub Asks : ApplicationSpec → AppComponent → Type 0
Asks app c = (app.application ≡ c.application) × ((app.components ≡ []) ⊎ In c.name app.components)

-- Some application of the list asks for the component.
abbrev pub Asked : List ApplicationSpec → AppComponent → Type 0
Asked [] c = ⊥
Asked (app ∷ apps) c = Asks app c ⊎ Asked apps c

cons-In :
    (c d : AppComponent) (xs items : List AppComponent) (P : Type 0)
    → P
    → (In c xs → P × In c items)
    → In c (d ∷ xs)
    → P × In c (d ∷ items)
cons-In c d xs items P p rest (inl same) = (p, inl same)
cons-In c d xs items P p rest (inr k) = ((rest k).0, inr (rest k).1)

pub of_application-In :
    (application : Str) (items : List AppComponent) (c : AppComponent)
    → In c (of_application application items)
    → (application ≡ c.application) × In c items
unfolding of_application
of_application-In application [] c h = absurd h
of_application-In application (d ∷ items) c h =
    step (str_eq application d.application) refl (of_application-In application items c) h
  where
    step :
        (b : Bool)
        → str_eq application d.application ≡ b
        → (In c (of_application application items) → (application ≡ c.application) × In c items)
        → In c
            (if b then d ∷ of_application application items else of_application application items)
        → (application ≡ c.application) × In c (d ∷ items)
    step true e rest (inl same) =
        (str_eq→eq application d.application e ∙ ap (λ x. x.application) same, inl same)
    step true e rest (inr k) = ((rest k).0, inr (rest k).1)
    step false e rest k = ((rest k).0, inr (rest k).1)

pub In-of_application :
    (application : Str) (items : List AppComponent) (c : AppComponent)
    → application ≡ c.application
    → In c items
    → In c (of_application application items)
unfolding of_application
In-of_application application [] c e h = h
In-of_application application (d ∷ items) c e h =
    step (str_eq application d.application) refl (In-of_application application items c e) h
  where
    step :
        (b : Bool)
        → str_eq application d.application ≡ b
        → (In c items → In c (of_application application items))
        → In c (d ∷ items)
        → In c
            (if b then d ∷ of_application application items else of_application application items)
    step true t rest (inl same) = inl same
    step true t rest (inr k) = inr (rest k)
    step false t rest (inr k) = rest k
    step false t rest (inl same) =
        cc (t, (str_eq_iff application d.application).1 (e ∙ sym (ap (λ x. x.application) same)))

first_named-In :
    (name : Str) (items : List AppComponent) (c : AppComponent)
    → In c (first_named name items)
    → (c.name ≡ name) × In c items
unfolding first_named
first_named-In name [] c h = absurd h
first_named-In name (d ∷ items) c h = step (str_eq name d.name) refl (first_named-In name items c) h
  where
    step :
        (b : Bool)
        → str_eq name d.name ≡ b
        → (In c (first_named name items) → (c.name ≡ name) × In c items)
        → In c (if b then d ∷ [] else first_named name items)
        → (c.name ≡ name) × In c (d ∷ items)
    step true e rest (inl same) =
        (sym (ap (λ x. x.name) same) ∙ sym (str_eq→eq name d.name e), inl same)
    step true e rest (inr k) = absurd k
    step false e rest k = ((rest k).0, inr (rest k).1)

all_named-In :
    (names : List Str) (items : List AppComponent) (c : AppComponent)
    → In c (all_named names items)
    → In c.name names × In c items
unfolding all_named
all_named-In [] items c h = absurd h
all_named-In (name ∷ names) items c h =
    elim (In-append c (first_named name items) (all_named names items) h) [
      | inl k ↦ let (same, i) = first_named-In name items c k in (inl (sym same), i)
      | inr k ↦ let (n, i) = all_named-In names items c k in (inr n, i)
    ]

select_application-In :
    (app : ApplicationSpec) (items : List AppComponent) (c : AppComponent) (names : List Str)
    → app.components ≡ names
    → In c (select_application app items)
    → Asks app c × In c items
unfolding select_application
select_application-In app items c [] e h =
    let (same, i) = of_application-In app.application items c (rw (e, select_application) at h) in
    ((same, inl e), i)
select_application-In app items c (n ∷ names) e h =
    let (named, k) =
      all_named-In (n ∷ names) (of_application app.application items) c
        (rw (e, select_application) at h) in
    let (same, i) = of_application-In app.application items c k in ((same, inr (rw e named)), i)

select_applications-In :
    (apps : List ApplicationSpec) (items : List AppComponent) (c : AppComponent)
    → In c (select_applications apps items)
    → Asked apps c × In c items
unfolding select_applications
select_applications-In [] items c h = absurd h
select_applications-In (app ∷ apps) items c h =
    elim (In-append c (select_application app items) (select_applications apps items) h) [
      | inl k ↦ let (a, i) = select_application-In app items c app.components refl k in (inl a, i)
      | inr k ↦ let (a, i) = select_applications-In apps items c k in (inr a, i)
    ]

-- A namespace that lists applications selects only components of the namespace that one of those
-- applications asks for.
pub select_components-Asked :
    (apps : List ApplicationSpec) (items : List AppComponent) (c : AppComponent)
    → apps ≢ []
    → In c (select_components apps items)
    → Asked apps c × In c items
unfolding select_components
select_components-Asked [] items c some_app h = absurd (some_app refl)
select_components-Asked (app ∷ apps) items c some_app h =
    select_applications-In (app ∷ apps) items c h
