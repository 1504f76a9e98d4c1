-- ===== src/Osv.antt =====
-- tools/osv-generator/cve_parser.go: the conversion of a CSAF VEX document to OSV records. The
-- regular expressions, the dates, the texts' replacement and the identifiers come from outside. A
-- panic is none.
pub mod Types
pub mod Download
pub mod Advisories
mod Affected
mod Chosen
mod Convert
mod Retry
mod Tests
pub use Types.*
use mintmaker.Component.Secrets.{wrap}
use mintmaker.Component.Git.{wrapped}
use mintmaker.Base.{
  ℕ, zero, suc, ◌*◌, Bool, true, false, Option, none, some, List, [], ◌∷◌, ◌++◌, Str, codes, str_eq,
  has_prefix, Result, ok, err, Error, failure, if◌then◌else◌,
}

-- What the file asks of other libraries: the parts that the two regular expressions match, none
-- where they do not match, a text with the registry's old name in place of the new one, a date in the
-- OSV's layout, the present time in it and the identifier of a record.
pub record OsvApi : Type 0 where
  pub match_rpm : Str → Option (Str × Str × Str)
  pub match_oci : Str → Option Str
  pub old_registry : Str → Str
  pub published : Str → Option Str
  pub now : Str
  pub new_id : Str → Str

-- `contains`
unfoldable pub contains : List AffectedPackage → AffectedPackage → Bool
contains [] p = false
contains (item ∷ items) p =
    if str_eq item.product.name p.product.name then true else contains items p

-- The test and the append at the end of the loops
unfoldable pub add_once : List AffectedPackage → AffectedPackage → List AffectedPackage
add_once found p = if contains found p then found else found ++ p ∷ []

unfoldable pub rpm_package : Str × Str × Str → AffectedPackage
rpm_package (purl, name, version) = record {
  product = record { ecosystem = codes "RPM"; name = name; purl = purl };
  ranges =
      record {
        type = codes "ECOSYSTEM";
        events =
            record { introduced = codes "0.0.0"; fixed = [] }
            ∷ record { introduced = []; fixed = version }
            ∷ [];
      }
      ∷ [];
}

unfoldable pub image_package : Str → Str → AffectedPackage
image_package name purl = record {
  product = record { ecosystem = codes "Docker"; name = name; purl = purl };
  ranges = [];
}

-- What a purl stands for: nothing where it is of another kind, and a panic where the regular
-- expression does not match it.
unfoldable pub rpm_packages : OsvApi → Str → Option (List AffectedPackage)
rpm_packages api purl = elim (has_prefix purl (codes "pkg:rpm")) [
  | false ↦ some []
  | true ↦ elim (api.match_rpm purl) [ none ↦ none | some parts ↦ some (rpm_package parts ∷ []) ]
]

unfoldable pub image_packages : OsvApi → Str → Option (List AffectedPackage)
image_packages api purl = elim (has_prefix purl (codes "pkg:oci")) [
  | false ↦ some []
  | true ↦ elim (api.match_oci purl) [
    | none ↦ none
    | some url ↦
        some (
          image_package url purl
          ∷ image_package (api.old_registry url) (api.old_registry purl)
          ∷ [])
  ]
]

unfoldable pub add_each : List AffectedPackage → List AffectedPackage → List AffectedPackage
add_each [] found = found
add_each (p ∷ ps) found = add_each ps (add_once found p)

-- The innermost loop, for either kind
unfoldable pub add_purls :
    (Str → Option (List AffectedPackage))
    → List Str
    → List AffectedPackage
    → Option (List AffectedPackage)
add_purls packages [] found = some found
add_purls packages (purl ∷ purls) found = elim (packages purl) [
  | none ↦ none
  | some ps ↦ add_purls packages purls (add_each ps found)
]

-- The purls that the two outer loops come to, in order
unfoldable pub sub_purls : List SubBranch → List Str
sub_purls [] = []
sub_purls (b ∷ subs) =
    if str_eq b.category (codes "architecture") then b.purls ++ sub_purls subs else sub_purls subs

unfoldable pub tree_purls : List (List SubBranch) → List Str
tree_purls [] = []
tree_purls (subs ∷ branches) = sub_purls subs ++ tree_purls branches

-- `getAffectedListRPMs` and `getAffectedListContainers`
unfoldable pub get_affected_list_rpms : OsvApi → Vex → Option (List AffectedPackage)
get_affected_list_rpms api vex = add_purls (rpm_packages api) (tree_purls vex.branches) []

unfoldable pub get_affected_list_containers : OsvApi → Vex → Option (List AffectedPackage)
get_affected_list_containers api vex = add_purls (image_packages api) (tree_purls vex.branches) []

-- The first note of a category
unfoldable pub note_of : Str → List Note → Option Str
note_of category [] = none
note_of category (n ∷ notes) =
    let later = note_of category notes in if str_eq n.category category then some n.text else later

-- `getSummary`, and `getDetails`, which panics where there is none
unfoldable pub get_summary : Vulnerability → Option Str
get_summary v = note_of (codes "summary") v.notes

unfoldable pub get_details : Vulnerability → Option Str
get_details v = note_of (codes "description") v.notes

unfoldable pub reference_of : Link → Reference
reference_of l = record {
  type = if str_eq l.category (codes "self") then codes "REPORT" else codes "WEB";
  url = l.url;
}

-- `getReferencesList`
unfoldable pub get_references_list : List Link → List Reference
get_references_list [] = []
get_references_list (l ∷ links) = reference_of l ∷ get_references_list links

unfoldable pub osv_record :
    OsvApi → Vex → List AffectedPackage → Vulnerability → Str → Str → Str → Osv
osv_record api vex affected v summary published details = record {
  id_internal = api.new_id v.cve;
  schema_version = codes "1.6.0";
  id = v.cve;
  severity = vex.severity;
  cwe_ids = v.cwe_id ∷ [];
  modified = api.now;
  published = published;
  summary = summary;
  details = details;
  affected = affected;
  references = get_references_list v.references;
}

-- The loop over the vulnerabilities; one without a summary is skipped.
unfoldable pub convert_all :
    OsvApi → Vex → List AffectedPackage → List Vulnerability → List Osv → Option (List Osv)
convert_all api vex affected [] found = some found
convert_all api vex affected (v ∷ vs) found = elim (get_summary v) [
  | none ↦ convert_all api vex affected vs found
  | some summary ↦ elim (api.published v.discovery_date) [
    | none ↦ none
    | some date ↦ elim (get_details v) [
      | none ↦ none
      | some details ↦
          convert_all api vex affected vs
            (found ++ osv_record api vex affected v summary date details ∷ [])
    ]
  ]
]

unfoldable pub convert_images : OsvApi → Vex → List AffectedPackage → Option (List Osv)
convert_images api vex [] = some []
convert_images api vex (p ∷ affected) = convert_all api vex (p ∷ affected) vex.vulnerabilities []

-- `ConvertToOSV`
unfoldable pub convert_to_osv : OsvApi → Vex → Bool → Option (List Osv)
convert_to_osv api vex false = elim (get_affected_list_rpms api vex) [
  | none ↦ none
  | some affected ↦ convert_all api vex affected vex.vulnerabilities []
]
convert_to_osv api vex true = elim (get_affected_list_containers api vex) [
  | none ↦ none
  | some affected ↦ convert_images api vex affected
]
