-- ===== src/Tekton/Builder/Objects.antt =====
-- internal/tekton/pipeline_run_builder.go: the methods that make parameters of objects, and
-- `WithFinalizer`. The kind of an object is ASCII; an empty one makes the program panic, which is
-- none here. `AddFinalizer`, reflection and JSON come from outside.
use mintmaker.Base.{
  ℕ, ◌+◌, Option, none, some, List, [], ◌∷◌, ◌++◌, Str, codes, leb, ◌&&◌, if◌then◌else◌, Result, ok,
  err, Error, ◌≡◌, ◌≤◌, ◌<◌, refl, sym, ◌∙◌, arith, subst, ◌⊎◌, inl, inr, Option-cases,
  append_assoc, append-nil,
}
use mintmaker.Tekton.Types.{Param}
use mintmaker.Tekton.Builder.{Builder, with_params}

-- `spec` is the JSON text of the field `Spec`, or what serialising it returns; none if the object
-- has no such field.
pub record ParamObject : Type 0 where
  pub kind : Str
  pub namespace : Str
  pub name : Str
  pub spec : Option (Result Str)

-- `unicode.ToLower` on ASCII
unfoldable pub to_lower : ℕ → ℕ
to_lower c = if leb b'A' c && leb c b'Z' then c + 32 else c

-- `name[0] = unicode.ToLower(name[0])`
unfoldable pub param_name : Str → Option Str
param_name [] = none
param_name (c ∷ kind) = some (to_lower c ∷ kind)

abbrev pub reference_param : ParamObject → Str → Param
reference_param o name = record { name = name; string_val = o.namespace ++ (codes "/" ++ o.name) }

-- `WithObjectReferences`
unfoldable pub with_object_references : List ParamObject → Builder → Option Builder
with_object_references [] b = some b
with_object_references (o ∷ objects) b = elim (param_name o.kind) [
  | none ↦ none
  | some name ↦ with_object_references objects (with_params (reference_param o name ∷ []) b)
]

abbrev add_error : Str → Builder → Builder
add_error message b = record b { errors = b.errors ++ message ∷ [] }

-- One round of `WithObjectSpecsAsJson`; the text of the second error ends with that of JSON's.
unfoldable pub with_spec : (Error → Str) → Str → Option (Result Str) → Builder → Builder
with_spec error_text name none b = add_error (codes "failed to extract spec for object: " ++ name) b
with_spec error_text name (some (err e)) b =
    add_error
      (codes "failed to serialize spec of object "
        ++ (name ++ (codes " to JSON: " ++ error_text e)))
      b
with_spec error_text name (some (ok text)) b =
    with_params (record { name = name; string_val = text } ∷ []) b

-- `WithObjectSpecsAsJson`
unfoldable pub with_object_specs_as_json :
    (Error → Str) → List ParamObject → Builder → Option Builder
with_object_specs_as_json error_text [] b = some b
with_object_specs_as_json error_text (o ∷ objects) b = elim (param_name o.kind) [
  | none ↦ none
  | some name ↦ with_object_specs_as_json error_text objects (with_spec error_text name o.spec b)
]

-- `WithFinalizer`
unfoldable pub with_finalizer : (List Str → Str → List Str) → Str → Builder → Builder
with_finalizer add_finalizer finalizer b = record b {
  run = record b.run { finalizers = add_finalizer b.run.finalizers finalizer };
}

-- A small ASCII letter for a capital one, and any other byte for itself.
abbrev pub IsLowered : ℕ → ℕ → Type 0
IsLowered c d = ((b'A' ≤ c) × (c ≤ b'Z') × (d ≡ c + 32)) ⊎ (((c < b'A') ⊎ (b'Z' < c)) × (d ≡ c))

-- The kind with its first letter made small; the empty kind names nothing.
abbrev pub IsNameOf : Str → Str → Type 0
IsNameOf [] name = ⊥
IsNameOf (c ∷ kind) [] = ⊥
IsNameOf (c ∷ kind) (d ∷ name) = IsLowered c d × (name ≡ kind)

-- What an object with this name and this specification adds to the parameters and to the errors.
abbrev pub Adds :
    (Error → Str)
    → Str
    → Option (Result Str)
    → List Param
    → List Str
    → List Param
    → List Str
    → Type 0
Adds error_text name (some (ok text)) more_params more_errors params errors =
    (params ≡ record { name = name; string_val = text } ∷ more_params) × (errors ≡ more_errors)
Adds error_text name (some (err e)) more_params more_errors params errors =
    (params ≡ more_params)
    × (errors
        ≡ (codes "failed to serialize spec of object "
            ++ (name ++ (codes " to JSON: " ++ error_text e)))
          ∷ more_errors)
Adds error_text name none more_params more_errors params errors =
    (params ≡ more_params)
    × (errors ≡ (codes "failed to extract spec for object: " ++ name) ∷ more_errors)

-- These are the parameters and the errors of the objects, in their order: the first object, under
-- its name, adds its own in front of those of the others.
pub data Specs (error_text : Error → Str) : List ParamObject → List Param → List Str → Type 0 where
  nothing : Specs error_text [] [] []
  each :
      (o : ParamObject) {objects : List ParamObject} {params more_params : List Param}
      {errors more_errors : List Str} (name : Str)
      → IsNameOf o.kind name
      → Adds error_text name o.spec more_params more_errors params errors
      → Specs error_text objects more_params more_errors
      → Specs error_text (o ∷ objects) params errors

-- The builder has more parameters and errors at the end of its lists and is the same otherwise.
abbrev pub extended : List Param → List Str → Builder → Builder
extended params errors b = record b {
  run = record b.run { params = b.run.params ++ params };
  errors = b.errors ++ errors;
}

-- Some object has no kind.
abbrev pub LacksKind : List ParamObject → Type 0
LacksKind [] = ⊥
LacksKind (o ∷ objects) = (o.kind ≡ []) ⊎ LacksKind objects

-- The builder is extended by the parameters and the errors of the objects, and there is one unless
-- some object has no kind.
abbrev pub AddsEach : (Error → Str) → List ParamObject → Builder → Option Builder → Type 0
AddsEach error_text objects b none = LacksKind objects
AddsEach error_text objects b (some b') =
    (params : List Param) × (errors : List Str) × Specs error_text objects params errors
    × (b' ≡ extended params errors b)

to_lower-IsLowered : (c : ℕ) → IsLowered c (to_lower c)
unfolding to_lower
to_lower-IsLowered c = ground arith

param_name-IsNameOf : (kind name : Str) → param_name kind ≡ some name → IsNameOf kind name
unfolding param_name
param_name-IsNameOf [] name e = cc
param_name-IsNameOf (c ∷ kind) name e =
    let same : (to_lower c ∷ kind) ≡ name = unfold to_lower in cc in
    subst (IsNameOf (c ∷ kind)) same (to_lower-IsLowered c, refl)

param_name_empty : (kind : Str) → param_name kind ≡ none → kind ≡ []
unfolding param_name
param_name_empty [] e = refl
param_name_empty (c ∷ kind) e = cc

-- An extension by one object, and then by those of the others.
with_spec-extended :
    (error_text : Error → Str) (name : Str) (spec : Option (Result Str)) (params : List Param)
    (errors : List Str) (b : Builder)
    → (params' : List Param) × (errors' : List Str) × Adds error_text name spec params errors
        params' errors'
      × (extended params errors (with_spec error_text name spec b) ≡ extended params' errors' b)
unfolding with_spec with_params
with_spec-extended error_text name none params errors b =
    let message = codes "failed to extract spec for object: " ++ name in
    (params, message ∷ errors, (refl, refl), rw (append_assoc b.errors (message ∷ []) errors) refl)
with_spec-extended error_text name (some (err e)) params errors b =
    let message =
      codes "failed to serialize spec of object "
      ++ (name ++ (codes " to JSON: " ++ error_text e)) in
    (params, message ∷ errors, (refl, refl), rw (append_assoc b.errors (message ∷ []) errors) refl)
with_spec-extended error_text name (some (ok text)) params errors b =
    let param : Param = record { name = name; string_val = text } in
    (param ∷ params, errors, (refl, refl), rw (append_assoc b.run.params (param ∷ []) params) refl)

AddsEach-cons :
    (error_text : Error → Str) (o : ParamObject) (objects : List ParamObject) (b : Builder)
    (name : Str) (result : Option Builder)
    → IsNameOf o.kind name
    → AddsEach error_text objects (with_spec error_text name o.spec b) result
    → AddsEach error_text (o ∷ objects) b result
AddsEach-cons error_text o objects b name none named h = inr h
AddsEach-cons error_text o objects b name (some c) named (params, errors, specs, same) =
    let (params', errors', adds, more) =
      with_spec-extended error_text name o.spec params errors b in
    (params', errors', Specs.each o name named adds specs, same ∙ more)

module _ (error_text : Error → Str) (o : ParamObject) (objects : List ParamObject)
    (b : Builder) where
  specs_none :
      param_name o.kind ≡ none → with_object_specs_as_json error_text (o ∷ objects) b ≡ none
  unfolding with_object_specs_as_json
  specs_none e = rw (e, with_object_specs_as_json) refl

  specs_some :
      (name : Str)
      → param_name o.kind ≡ some name
      → with_object_specs_as_json error_text (o ∷ objects) b
        ≡ with_object_specs_as_json error_text objects (with_spec error_text name o.spec b)
  unfolding with_object_specs_as_json
  specs_some name e = rw (e, with_object_specs_as_json) refl

-- `WithObjectSpecsAsJson` returns unless an object has no kind. It puts at the end of the
-- parameters, in the order of the objects, one for each object whose specification can be serialised:
-- its name is the kind with the first letter made small, its value the text. At the end of the
-- errors it puts one for each other object, with its message. It changes nothing else of the builder.
pub with_object_specs_as_json-AddsEach :
    (error_text : Error → Str) (objects : List ParamObject) (b : Builder)
    → AddsEach error_text objects b (with_object_specs_as_json error_text objects b)
with_object_specs_as_json-AddsEach error_text [] b =
    unfold with_object_specs_as_json in
    ([], [], Specs.nothing, rw (append-nil b.run.params, append-nil b.errors) refl)
with_object_specs_as_json-AddsEach error_text (o ∷ objects) b =
    elim (Option-cases (param_name o.kind)) [
      | inl e ↦
          subst (AddsEach error_text (o ∷ objects) b) (sym (specs_none error_text o objects b e))
            (inl (param_name_empty o.kind e))
      | inr (name, e) ↦
          subst (AddsEach error_text (o ∷ objects) b)
            (sym (specs_some error_text o objects b name e))
            (AddsEach-cons error_text o objects b name _ (param_name-IsNameOf o.kind name e) (
              with_object_specs_as_json-AddsEach error_text objects
                (with_spec error_text name o.spec b)))
    ]
