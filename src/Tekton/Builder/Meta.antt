-- ===== src/Tekton/Builder/Meta.antt =====
-- internal/tekton/pipeline_run_builder.go: labels and annotations, timeouts, volume names.
use mintmaker.Base.{
  HasDistinctKeys, override, insert_all-override, [], ◌∷◌, Str, Dict, lookup, All, ◌≡◌, ◌≢◌, arith,
}
use mintmaker.Tekton.Builder.{Builder, with_labels, sanitize_volume_name}

-- After `WithLabels` each label that was given has its new value and every other one its old value.
pub with_labels-override :
    (ls : Dict Str) (b : Builder) (j : Str)
    → HasDistinctKeys ls
    → lookup j (with_labels ls b).run.labels ≡ override (lookup j ls) (lookup j b.run.labels)
unfolding with_labels
with_labels-override ls b j h = insert_all-override ls b.run.labels j h

-- A volume name never holds a dot.
pub sanitize_volume_name-dotless : (name : Str) → All (λ c. c ≢ b'.') (sanitize_volume_name name)
unfolding sanitize_volume_name
sanitize_volume_name-dotless [] = tt
sanitize_volume_name-dotless (c ∷ name) = (ground arith, sanitize_volume_name-dotless name)
