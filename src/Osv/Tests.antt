-- ===== src/Osv/Tests.antt =====
-- Examples of tools/osv-generator: a document with one package for two architectures, and a download
-- that is answered at the second call.
use mintmaker.Osv.Advisories.{Listed, get_advisory_list_by_modified, get_advisory_list_by_releases}
use mintmaker.Osv.Chosen.{
  rhsa_names, ReturnsRecent, get_advisory_list_by_modified-take,
  get_advisory_list_by_releases-ReturnsRecent,
}
use mintmaker.Base.{
  List, Str, ℕ, ◌≡◌, ok, Result, take, if◌then◌else◌, str_eq, arith, ℕ, zero, suc, false, none,
  some, [], ◌∷◌, codes, ok,
}
use mintmaker.Osv.{
  OsvApi, Vex, get_affected_list_rpms, get_affected_list_containers, rpm_packages, image_packages,
  tree_purls, convert_to_osv,
}
use mintmaker.Osv.Affected.{Collects, get_affected_list-Collects}
use mintmaker.Osv.Convert.{ConvertsFor, affected_list, convert_to_osv-ConvertsFor}
use mintmaker.Osv.Download.{Response, retry_get}
use mintmaker.Osv.Retry.{ReturnsFirst, retry_get-ReturnsFirst}

abbrev api : OsvApi
api = record {
  match_rpm = λ purl. some (codes "pkg:rpm/redhat/bash", codes "bash", codes "5.1");
  match_oci = λ purl. some (codes "registry.redhat.io/ubi9");
  old_registry = λ s. s;
  published = λ date. some date;
  now = codes "2025-01-01T00:00:00Z";
  new_id = λ cve. cve;
}

abbrev vex : Vex
vex = record {
  severity = codes "Important";
  vulnerabilities =
      record {
        cve = codes "CVE-1";
        discovery_date = codes "2025-01-01T00:00:00+00:00";
        cwe_id = codes "CWE-1";
        references = [];
        notes =
            record { category = codes "summary"; text = codes "short" }
            ∷ record { category = codes "description"; text = codes "long" }
            ∷ [];
      }
      ∷ [];
  branches =
      (record {
        category = codes "architecture";
        purls = codes "pkg:rpm/redhat/bash@5.1?arch=x86_64" ∷ [];
      }
        ∷ record {
          category = codes "architecture";
          purls = codes "pkg:rpm/redhat/bash@5.1?arch=s390x" ∷ [];
        }
        ∷ [])
      ∷ [];
}

get_affected_list-Collects_example :
    Collects (rpm_packages api) (tree_purls vex.branches) [] (get_affected_list_rpms api vex)
    × Collects
        (image_packages api)
        (tree_purls vex.branches)
        []
        (get_affected_list_containers api vex)
get_affected_list-Collects_example = get_affected_list-Collects api vex

convert_to_osv-ConvertsFor_example :
    ConvertsFor api vex false (affected_list api vex false) (convert_to_osv api vex false)
convert_to_osv-ConvertsFor_example = convert_to_osv-ConvertsFor api vex false

abbrev answers : ℕ → Response
answers zero = Response.refused
answers (suc n) = Response.success (ok (codes "body"))

retry_get-ReturnsFirst_example : ReturnsFirst answers 0 5 (retry_get answers 5 0 none)
retry_get-ReturnsFirst_example = retry_get-ReturnsFirst answers 5 0 none

abbrev listed : List Listed
listed =
    record { advisory = codes "2025/rhsa-2025_2.json"; date = codes "new" }
    ∷ record { advisory = codes "2025/rhba-2025_3.json"; date = codes "new" }
    ∷ record { advisory = codes "2024/rhsa-2024_1.json"; date = codes "old" }
    ∷ []

abbrev read_date : Str → Result ℕ
read_date s = if str_eq s (codes "old") then ok 5 else ok 20

get_advisory_list_by_modified-take_example :
    get_advisory_list_by_modified (λ l. l) 2 (ok listed) ≡ ok (take 2 (rhsa_names listed))
get_advisory_list_by_modified-take_example =
    get_advisory_list_by_modified-take (λ l. l) 2 listed (omega arith)

get_advisory_list_by_releases-ReturnsRecent_example :
    ReturnsRecent read_date 10 listed [] (get_advisory_list_by_releases read_date 10 (ok listed))
get_advisory_list_by_releases-ReturnsRecent_example =
    get_advisory_list_by_releases-ReturnsRecent read_date 10 listed
