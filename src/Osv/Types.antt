-- ===== src/Osv/Types.antt =====
-- tools/osv-generator/osv_vulnerability.go and csaf_vex_vulnerability.go: the records of a document
-- and of what it is converted to.
use mintmaker.Base.{List, Str}

-- `Package`
pub record Package : Type 0 where
  pub ecosystem : Str
  pub name : Str
  pub purl : Str

-- `Event`, with an empty field where there is none
pub record Event : Type 0 where
  pub introduced : Str
  pub fixed : Str

pub record Range : Type 0 where
  pub type : Str
  pub events : List Event

-- `Affected`
pub record AffectedPackage : Type 0 where
  pub product : Package
  pub ranges : List Range

pub record Reference : Type 0 where
  pub type : Str
  pub url : Str

pub record Note : Type 0 where
  pub category : Str
  pub text : Str

pub record Link : Type 0 where
  pub category : Str
  pub url : Str

pub record Vulnerability : Type 0 where
  pub cve : Str
  pub discovery_date : Str
  pub cwe_id : Str
  pub references : List Link
  pub notes : List Note

-- A branch below the top of the product tree, with the purls of its products
pub record SubBranch : Type 0 where
  pub category : Str
  pub purls : List Str

-- `VEX`, whose top branches are lists of branches
pub record Vex : Type 0 where
  pub severity : Str
  pub vulnerabilities : List Vulnerability
  pub branches : List (List SubBranch)

pub record Osv : Type 0 where
  pub id_internal : Str
  pub schema_version : Str
  pub id : Str
  pub severity : Str
  pub cwe_ids : List Str
  pub modified : Str
  pub published : Str
  pub summary : Str
  pub details : Str
  pub affected : List AffectedPackage
  pub references : List Reference
