-- ===== src/Tekton/Builder/Tests.antt =====
-- Inputs of the examples of internal/tekton/pipeline_run_builder.go, and the examples.
use mintmaker.Base.{[], ◌∷◌, none, Str, codes, Dict, lookup, refl, HasDistinctKeys, str_eq}
use mintmaker.Tekton.Builder.{Builder, new_pipeline_run_builder, with_secret, with_kite_integration}
use mintmaker.Tekton.Builder.Objects.{
  ParamObject, AddsEach, with_object_specs_as_json, with_object_specs_as_json-AddsEach,
}
use mintmaker.Base.{List, some, ok}
use mintmaker.Tekton.Builder.Mounts.{Built, IsMounted, Built-IsMounted}

abbrev fresh : Builder
fresh = new_pipeline_run_builder (λ name. []) (codes "sanitizer") (codes "run") (codes "mintmaker")

abbrev loaded : Builder
loaded =
    with_kite_integration (codes "http://kite")
      (with_secret (codes "abc") (codes "token.x") (codes "/etc/token") [] none fresh)

Built-IsMounted_example : IsMounted loaded
Built-IsMounted_example = Built-IsMounted (
    Built.kite_integration (codes "http://kite") (
      Built.secret (codes "abc") (codes "token.x") (codes "/etc/token") [] none
        (Built.new (λ name. []) (codes "sanitizer") (codes "run") (codes "mintmaker"))))

abbrev new_labels : Dict Str
new_labels = (codes "a", codes "1") ∷ (codes "b", codes "2") ∷ []

new_labels-distinct : HasDistinctKeys new_labels
unfolding lookup str_eq
new_labels-distinct = (refl, (refl, tt))

abbrev two_objects : List ParamObject
two_objects =
    record {
      kind = codes "Component";
      namespace = codes "team";
      name = codes "a";
      spec = some (ok (codes "{}"));
    }
    ∷ record { kind = codes "Event"; namespace = codes "team"; name = codes "e"; spec = none }
    ∷ []

with_object_specs_as_json-AddsEach_example :
    AddsEach
      (λ e. codes "error")
      two_objects
      fresh
      (with_object_specs_as_json (λ e. codes "error") two_objects fresh)
with_object_specs_as_json-AddsEach_example =
    with_object_specs_as_json-AddsEach (λ e. codes "error") two_objects fresh
