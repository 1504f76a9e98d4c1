-- ===== src/Controller/Filter.antt =====
-- internal/controller/common.go: `getFilteredComponents`.
pub mod Selected
pub mod Complete
use mintmaker.Base.{
  Bool, true, false, Option, none, some, List, [], ◌∷◌, ◌++◌, Str, str_eq, if◌then◌else◌,
}
use mintmaker.Cluster.Objects.{AppComponent, ApplicationSpec, NamespaceSpec}
use mintmaker.Cluster.Client.{Client, Action, ◌>>=◌, pure, asking}

-- The components of one application.
unfoldable pub of_application : Str → List AppComponent → List AppComponent
of_application application [] = []
of_application application (c ∷ items) =
    if str_eq application c.application
    then c ∷ of_application application items
    else of_application application items

-- The first component of that name: the inner loop breaks.
unfoldable pub first_named : Str → List AppComponent → List AppComponent
first_named name [] = []
first_named name (c ∷ items) = if str_eq name c.name then c ∷ [] else first_named name items

unfoldable pub all_named : List Str → List AppComponent → List AppComponent
all_named [] items = []
all_named (name ∷ names) items = first_named name items ++ all_named names items

-- One application: all of its components where none is named.
unfoldable pub select_application : ApplicationSpec → List AppComponent → List AppComponent
select_application app items = elim app.components [
  | [] ↦ of_application app.application items
  | n ∷ names ↦ all_named (n ∷ names) (of_application app.application items)
]

unfoldable pub select_applications : List ApplicationSpec → List AppComponent → List AppComponent
select_applications [] items = []
select_applications (app ∷ apps) items =
    select_application app items ++ select_applications apps items

-- One namespace: all of its components where no application is given.
unfoldable pub select_components : List ApplicationSpec → List AppComponent → List AppComponent
select_components [] items = items
select_components (app ∷ apps) items = select_applications (app ∷ apps) items

-- `getFilteredComponents`, which stops at the first failed list.
unfoldable pub filtered_components : Client → List NamespaceSpec → Action (List AppComponent)
filtered_components client [] = pure []
filtered_components client (ns ∷ namespaces) = do
  items ← asking (λ h. client.list_components h (some ns.namespace))
  rest ← filtered_components client namespaces
  pure (select_components ns.applications items ++ rest)
