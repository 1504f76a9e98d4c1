-- ===== src/Cluster/Objects.antt =====
-- The Kubernetes and Konflux objects that the controllers read and write, with the fields that
-- they use: api/v1alpha1/dependencyupdatecheck_types.go and the types of the imported APIs.
use mintmaker.Base.{Bool, Option, List, [], ◌∷◌, Str, codes, Dict}
use mintmaker.Tekton.Types.{PipelineRun}

-- A decoded JSON document.
mutual
  pub data Json : Type 0 where
    null : Json
    bool : Bool → Json
    num : Str → Json
    str : Str → Json
    arr : Items → Json
    obj : Fields → Json

  pub data Items : Type 0 where
    nil : Items
    cons : Json → Items → Items

  pub data Fields : Type 0 where
    end : Fields
    field : Str → Json → Fields → Fields

-- A value of type `map[string]interface{}`.
unfoldable pub entries : Fields → Dict Json
entries Fields.end = []
entries (Fields.field k v fs) = (k, v) ∷ entries fs

-- `owners` stands for the owner references.
pub record Secret : Type 0 where
  pub name : Str
  pub namespace : Str
  pub type : Str
  pub labels : Dict Str
  pub annotations : Dict Str
  pub values : Dict Str
  pub string_values : Dict Str
  pub owners : List Str

pub record ConfigMap : Type 0 where
  pub name : Str
  pub namespace : Str
  pub values : Dict Str
  pub owners : List Str

-- `secrets` holds the names of the secrets that are linked to the account.
pub record ServiceAccount : Type 0 where
  pub secrets : List Str

pub record GitSource : Type 0 where
  pub url : Str
  pub revision : Str

-- A Konflux component; `versions` holds the revision of each version.
pub record AppComponent : Type 0 where
  pub name : Str
  pub namespace : Str
  pub annotations : Dict Str
  pub application : Str
  pub git_source : Option GitSource
  pub git_url : Str
  pub versions : List Str

pub record ApplicationSpec : Type 0 where
  pub application : Str
  pub components : List Str

pub record NamespaceSpec : Type 0 where
  pub namespace : Str
  pub applications : List ApplicationSpec

pub record DependencyUpdateCheck : Type 0 where
  pub name : Str
  pub namespace : Str
  pub annotations : Dict Str
  pub namespaces : List NamespaceSpec

-- A volume of a pod, with the name of its secret if it has one.
pub record PodVolume : Type 0 where
  pub name : Str
  pub secret_name : Option Str

pub record Pod : Type 0 where
  pub name : Str
  pub namespace : Str
  pub labels : Dict Str
  pub volumes : List PodVolume

pub record Event : Type 0 where
  pub name : Str
  pub namespace : Str
  pub annotations : Dict Str
  pub reason : Str
  pub message : Str
  pub involved_kind : Str
  pub involved_name : Str
  pub involved_namespace : Str

pub data Object : Type 0 where
  secret : Secret → Object
  config_map : ConfigMap → Object
  pipeline_run : PipelineRun → Object
  check : DependencyUpdateCheck → Object
  event : Event → Object

pub data Kind : Type 0 where
  secret_kind config_map_kind pipeline_run_kind check_kind event_kind : Kind

-- What names an object to the API.
pub record Ref : Type 0 where
  pub kind : Kind
  pub namespace : Str
  pub name : Str

abbrev pub ref_of : Object → Ref
ref_of (Object.secret s) = record { kind = secret_kind; namespace = s.namespace; name = s.name }
ref_of (Object.config_map c) = record {
  kind = config_map_kind;
  namespace = c.namespace;
  name = c.name;
}
ref_of (Object.pipeline_run p) = record {
  kind = pipeline_run_kind;
  namespace = p.namespace;
  name = p.name;
}
ref_of (Object.check c) = record { kind = check_kind; namespace = c.namespace; name = c.name }
ref_of (Object.event e) = record { kind = event_kind; namespace = e.namespace; name = e.name }

-- internal/constant
unfoldable pub mintmaker_namespace : Str
mintmaker_namespace = codes "mintmaker"

unfoldable pub processed_annotation : Str
processed_annotation = codes "mintmaker.appstudio.redhat.com/processed"

unfoldable pub disabled_annotation : Str
disabled_annotation = codes "mintmaker.appstudio.redhat.com/disabled"

unfoldable pub kite_token_label : Str
kite_token_label = codes "mintmaker.appstudio.redhat.com/kite-token"

unfoldable pub hash_label : Str
hash_label = codes "mintmaker.appstudio.redhat.com/repo-branch-hash"

unfoldable pub docker_config_key : Str
docker_config_key = codes ".dockerconfigjson"
