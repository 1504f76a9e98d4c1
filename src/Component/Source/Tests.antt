-- ===== src/Component/Source/Tests.antt =====
-- An example of internal/component/component.go.
use mintmaker.Base.{none, [], ◌∷◌, codes}
use mintmaker.Cluster.Objects.{AppComponent}
use mintmaker.Component.Source.{IsSource, get_git_url, get_git_url-IsSource}

abbrev new_model : AppComponent
new_model = record {
  name = codes "a";
  namespace = codes "team";
  annotations = [];
  application = codes "app";
  git_source = none;
  git_url = codes "https://gitlab.com/org/repo";
  versions = codes "main" ∷ [];
}

get_git_url-IsSource_example : IsSource new_model (get_git_url new_model)
get_git_url-IsSource_example = get_git_url-IsSource new_model
