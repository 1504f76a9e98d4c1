-- ===== src/Utils/Label/Tests.antt =====
-- Inputs of the examples of internal/utils/sanitize.go, and the examples.
use mintmaker.Base.{◌≡◌, refl, inr, codes, arith}
use mintmaker.Utils.Label.{is_alphanumeric, is_label_byte, max_label, normalize_label_value}
use mintmaker.Utils.Label.Valid.{IsLabel, normalize_label_value-IsLabel, normalize_label_value_id}

normalize_label_value-IsLabel_example : IsLabel (normalize_label_value (codes "/org/repo.git#"))
normalize_label_value-IsLabel_example = normalize_label_value-IsLabel (codes "/org/repo.git#")

a_b-IsLabel : IsLabel (codes "a.b")
unfolding is_label_byte is_alphanumeric
a_b-IsLabel = record {
  short = unfold max_label in omega arith;
  allowed = (refl, (refl, (refl, tt)));
  ends = inr (refl, refl);
}

normalize_label_value_id_example : normalize_label_value (codes "a.b") ≡ codes "a.b"
normalize_label_value_id_example = normalize_label_value_id (codes "a.b") a_b-IsLabel
