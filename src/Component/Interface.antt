-- ===== src/Component/Interface.antt =====
-- internal/component/component.go: the interface `GitComponent`, through which the controllers
-- use the platforms, and the factory that they are given. Its methods read the cluster and the
-- platform and write neither.
use mintmaker.Base.{List, Str, Result}
use mintmaker.Cluster.Objects.{AppComponent, Secret}
use mintmaker.Cluster.Client.{History}

pub record GitComponent : Type 0 where
  pub name : Str
  pub namespace : Str
  pub application : Str
  pub platform : Str
  pub host : Str
  pub repository : Str
  pub get_token : History → Result Str
  pub get_branches : History → Result (List Str)
  pub get_renovate_config : History → Secret → Str → Result Str
  pub get_rpm_activation_key : History → Result (Str × Str)

-- `GitComponentFactory`
abbrev pub Factory : Type 0
Factory = History → AppComponent → Result GitComponent
