-- ===== src/Component/Samples.antt =====
-- Values that the examples of internal/component share: a repository on each platform and a GitHub
-- client with two installations.
use mintmaker.Base.{
  ℕ, zero, suc, true, false, none, some, List, [], ◌∷◌, Str, codes, Result, ok, err, failure,
}
use mintmaker.Cluster.Objects.{AppComponent, Secret}
use mintmaker.Utils.GitUrl.{Url}
use mintmaker.Component.Git.{BaseComponent}
use mintmaker.Component.Github.{GithubApi, GithubState, Page}
use mintmaker.Component.Github.Access.{GithubComponent}

abbrev pub parse : Str → Result Url
parse url =
    ok (record { scheme = codes "https"; hostname = codes "gitlab.com"; path = codes "/org/repo" })

abbrev pub resource : AppComponent
resource = record {
  name = codes "a";
  namespace = codes "team";
  annotations = [];
  application = codes "app";
  git_source = none;
  git_url = codes "https://gitlab.com/org/repo";
  versions = codes "main" ∷ [];
}

abbrev pub base : Str → List Str → BaseComponent
base name versions = record {
  name = name;
  namespace = codes "team";
  application = codes "app";
  platform = codes "gitlab";
  host = codes "gitlab.com";
  git_url = codes "https://gitlab.com/org/repo";
  repository = codes "org/repo";
  versions = versions;
  old_crd_version = false;
}

abbrev pub app_component : GithubComponent
app_component = record { base = base (codes "a") []; app = 7; key = some (codes "key") }

-- The first installation has its repositories on two pages, each other one has none that can be listed.
abbrev pub repository_pages : ℕ → List (Page Str)
repository_pages zero = []
repository_pages (suc zero) =
    record { items = codes "org/other" ∷ []; next_page = 2 }
    ∷ record { items = codes "/org/repo/" ∷ []; next_page = 0 }
    ∷ []
repository_pages (suc (suc n)) = []

abbrev pub repositories_at : ℕ → ℕ → Result (Page Str)
repositories_at (suc zero) zero = ok (record { items = codes "org/other" ∷ []; next_page = 2 })
repositories_at (suc zero) (suc n) = ok (record { items = codes "/org/repo/" ∷ []; next_page = 0 })
repositories_at zero page = err (failure (codes "forbidden"))
repositories_at (suc (suc id)) page = err (failure (codes "forbidden"))

abbrev pub installation_page : Page ℕ
installation_page = record { items = 1 ∷ 5 ∷ []; next_page = 0 }

abbrev pub github : GithubApi
github = record {
  parse_int = λ s. ok 7;
  format_int = λ n. codes "5";
  apps_transport = λ app key. ok tt;
  installation_transport = λ app id key. ok tt;
  new_client = ok tt;
  get_app = λ app key. ok (codes "bot");
  status_of = λ e. 0;
  list_installations = λ page. ok installation_page;
  list_repositories = repositories_at;
  new_token = λ app id key. ok (codes "token");
  get_user = λ name. ok 9;
  has_branch = λ owner repo branch. true;
  default_branch = λ owner repo. ok (some (codes "main"));
}

abbrev pub fresh : GithubState
fresh = record {
  app_id = 0;
  private_key = none;
  app_slug = [];
  user_id = 0;
  tokens = record { entries = [] };
}

abbrev pub secret : Str → Secret
secret config = record {
  name = codes "registry";
  namespace = codes "team";
  type = codes "kubernetes.io/dockerconfigjson";
  labels = [];
  annotations = [];
  values = (codes ".dockerconfigjson", config) ∷ [];
  string_values = [];
  owners = [];
}
