-- ===== src/Controller/Docker.antt =====
-- internal/controller/dependencyupdatecheck_controller.go: `getMergedDockerConfigJson`.
use mintmaker.Base.{
  Option, none, some, List, [], ◌∷◌, ◌++◌, Str, codes, str_eq, Dict, lookup, has_value, insert_all,
  Result, ok, err, if◌then◌else◌, not_found, failure,
}
use mintmaker.Cluster.Objects.{Secret, ServiceAccount, Json, Fields, entries, docker_config_key}
use mintmaker.Cluster.Client.{Client, Platform, Action, ◌>>=◌, pure, raise, lift, attempt, asking}
use mintmaker.Component.Interface.{GitComponent}

unfoldable pub internal_label : Str
internal_label = codes "appstudio.redhat.com/internal"

unfoldable pub docker_config_type : Str
docker_config_type = codes "kubernetes.io/dockerconfigjson"

-- `dockerConfig["auths"].(map[string]interface{})`
unfoldable pub auths_of : Fields → Option (Dict Json)
auths_of config = elim (lookup (codes "auths") (entries config)) [
  | some (Json.obj fields) ↦ some (entries fields)
  | _ ↦ none
]

-- The fields of a map with these entries.
unfoldable pub fields_of : Dict Json → Fields
fields_of [] = Fields.end
fields_of ((k, v) ∷ m) = Fields.field k v (fields_of m)

-- The registries of one secret, or none where the loop goes on to the next one.
unfoldable pub secret_auths : Platform → Secret → Result (Option (Dict Json))
secret_auths platform s =
    if str_eq s.type docker_config_type
    then if has_value s.labels internal_label (codes "true")
      then ok none
      else elim (lookup docker_config_key s.values) [
        | none ↦ ok none
        | some text ↦ elim (platform.unmarshal text) [
          | err e ↦ err e
          | ok config ↦ ok (auths_of config)
        ]
      ]
    else ok none

-- `for registry, creds := range auths { mergedAuths[registry] = creds }`
unfoldable pub merge_auths : Option (Dict Json) → Dict Json → Dict Json
merge_auths none merged = merged
merge_auths (some auths) merged = insert_all auths merged

-- One round of the loop over the secrets, with the rounds after it.
unfoldable pub merge_found :
    Platform → Dict Json → (Dict Json → Action (Dict Json)) → Result Secret → Action (Dict Json)
merge_found platform merged next (err not_found) = next merged
merge_found platform merged next (err (failure message)) = raise (failure message)
merge_found platform merged next (ok s) = do
  auths ← lift (secret_auths platform s)
  next (merge_auths auths merged)

-- The loop over the secrets of the service account.
unfoldable pub merge_secrets : Client → Platform → Str → List Str → Dict Json → Action (Dict Json)
merge_secrets client platform namespace [] merged = pure merged
merge_secrets client platform namespace (name ∷ names) merged = do
  found ← attempt (asking (λ h. client.get_secret h namespace name))
  merge_found platform merged (merge_secrets client platform namespace names) found

-- The text of the merged configuration, unless nothing was merged.
unfoldable pub marshal_auths : Platform → Dict Json → Result (Option Str)
marshal_auths platform [] = ok none
marshal_auths platform (a ∷ merged) =
    elim (platform.marshal
      (Json.obj (Fields.field (codes "auths") (Json.obj (fields_of (a ∷ merged))) Fields.end))) [
        | ok text ↦ ok (some text)
        | err e ↦ err e
      ]

unfoldable pub merge_account : Client → Platform → Str → Result ServiceAccount → Action (Option Str)
merge_account client platform namespace (err not_found) = pure none
merge_account client platform namespace (err (failure message)) = raise (failure message)
merge_account client platform namespace (ok account) = do
  merged ← merge_secrets client platform namespace account.secrets []
  lift (marshal_auths platform merged)

-- `getMergedDockerConfigJson`; none stands for the nil slice.
unfoldable pub merged_docker_config : Client → Platform → GitComponent → Action (Option Str)
merged_docker_config client platform comp = do
  account ← attempt (
      asking
        (λ h. client.get_service_account h comp.namespace (codes "build-pipeline-" ++ comp.name)))
  merge_account client platform comp.namespace account
