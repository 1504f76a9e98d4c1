-- ===== src/Controller/Filter/Complete.antt =====
-- internal/controller/common.go: every component that is asked for is selected.
use mintmaker.Base.{
  Bool, true, false, List, [], ◌∷◌, Str, str_eq, str_eq→eq, str_eq_iff, ap, In, In-left, In-right,
  if◌then◌else◌, ◌≡◌, refl, sym, inl, inr,
}
use mintmaker.Cluster.Objects.{AppComponent, ApplicationSpec}
use mintmaker.Controller.Filter.{
  of_application, first_named, all_named, select_application, select_applications,
  select_components,
}
use mintmaker.Controller.Filter.Selected.{Asks, Asked, of_application-In, In-of_application}

-- No other component of the list has the name, as in one namespace of a cluster.
abbrev pub HasUniqueName : AppComponent → List AppComponent → Type 0
HasUniqueName c items = (d : AppComponent) → In d items → d.name ≡ c.name → d ≡ c

In-first_named :
    (items : List AppComponent) (c : AppComponent)
    → HasUniqueName c items
    → In c items
    → In c (first_named c.name items)
unfolding first_named
In-first_named [] c only h = h
In-first_named (d ∷ items) c only h =
    step (str_eq c.name d.name) refl (In-first_named items c (λ e k. only e (inr k))) h
  where
    step :
        (b : Bool)
        → str_eq c.name d.name ≡ b
        → (In c items → In c (first_named c.name items))
        → In c (d ∷ items)
        → In c (if b then d ∷ [] else first_named c.name items)
    step true e rest k = inl (only d (inl refl) (sym (str_eq→eq c.name d.name e)))
    step false e rest (inr k) = rest k
    step false e rest (inl same) =
        cc (e, (str_eq_iff c.name d.name).1 (sym (ap (λ x. x.name) same)))

In-all_named :
    (names : List Str) (items : List AppComponent) (c : AppComponent)
    → HasUniqueName c items
    → In c items
    → In c.name names
    → In c (all_named names items)
unfolding all_named
In-all_named [] items c only h k = absurd k
In-all_named (name ∷ names) items c only h (inl e) =
    In-left c (first_named name items) (all_named names items)
      (rw e (In-first_named items c only h))
In-all_named (name ∷ names) items c only h (inr k) =
    In-right c (first_named name items) (all_named names items)
      (In-all_named names items c only h k)

Asks-select_application :
    (app : ApplicationSpec) (items : List AppComponent) (c : AppComponent) (names : List Str)
    → app.components ≡ names
    → HasUniqueName c items
    → Asks app c
    → In c items
    → In c (select_application app items)
unfolding select_application
Asks-select_application app items c [] e only a h =
    rw (e, select_application) (In-of_application app.application items c a.0 h)
Asks-select_application app items c (n ∷ names) e only (same, inl none) h = cc (e, none)
Asks-select_application app items c (n ∷ names) e only (same, inr k) h =
    rw (e, select_application)
      (In-all_named (n ∷ names) (of_application app.application items) c
        (λ d i. only d (of_application-In app.application items d i).1)
        (In-of_application app.application items c same h) (rw e at k))

Asked-select_applications :
    (apps : List ApplicationSpec) (items : List AppComponent) (c : AppComponent)
    → HasUniqueName c items
    → Asked apps c
    → In c items
    → In c (select_applications apps items)
unfolding select_applications
Asked-select_applications [] items c only a h = absurd a
Asked-select_applications (app ∷ apps) items c only (inl a) h =
    In-left c (select_application app items) (select_applications apps items)
      (Asks-select_application app items c app.components refl only a h)
Asked-select_applications (app ∷ apps) items c only (inr a) h =
    In-right c (select_application app items) (select_applications apps items)
      (Asked-select_applications apps items c only a h)

-- A component of the namespace that a listed application asks for is selected, if no other
-- component of the namespace has its name.
pub Asked-select_components :
    (apps : List ApplicationSpec) (items : List AppComponent) (c : AppComponent)
    → HasUniqueName c items
    → Asked apps c
    → In c items
    → In c (select_components apps items)
unfolding select_components
Asked-select_components [] items c only a h = h
Asked-select_components (app ∷ apps) items c only a h =
    Asked-select_applications (app ∷ apps) items c only a h
