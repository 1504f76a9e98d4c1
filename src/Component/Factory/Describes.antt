-- ===== src/Component/Factory/Describes.antt =====
-- internal/component/component.go: the component that `NewGitComponent` makes describes the resource.
use mintmaker.Base.{
  ℕ, Bool, Option, Str, codes, str_eq, str_eq_iff, Result, ok, err, Error, ◌≡◌, refl, sym, ◌∙◌,
  subst, inl, inr, Bool-cases, ◌>>=◌,
}
use mintmaker.Cluster.Objects.{AppComponent, Secret}
use mintmaker.Utils.GitUrl.{Url, get_git_platform, get_git_host, get_git_path}
use mintmaker.Component.Source.{get_git_url, get_versions}
use mintmaker.Component.Git.{BaseComponent, new_base_component, wrapped}
use mintmaker.Component.Github.{GithubState, GithubApi, get_app_id_and_key}
use mintmaker.Component.Github.Access.{GithubComponent, new_component}
use mintmaker.Component.Factory.{
  AnyComponent, map_result, construct, construct_on, construct_from, new_git_component,
}

-- The fields are those of the resource and of its repository's URL.
abbrev pub Describes : (Str → Result Url) → AppComponent → Str × Bool → BaseComponent → Type 0
Describes parse comp (url, old) c =
    (c.name ≡ comp.name)
    × (c.namespace ≡ comp.namespace)
    × (c.application ≡ comp.application)
    × (get_git_platform parse url ≡ ok c.platform)
    × (get_git_host parse url ≡ ok c.host)
    × (get_git_path parse url ≡ ok c.repository)
    × (c.git_url ≡ url)
    × (c.versions ≡ get_versions comp)
    × (c.old_crd_version ≡ old)

-- The component is the one of its platform.
abbrev pub IsFor : (Str → Result Url) → AppComponent → Str × Bool → AnyComponent → Type 0
IsFor parse comp source (AnyComponent.on_github g) =
    (g.base.platform ≡ codes "github") × Describes parse comp source g.base
IsFor parse comp source (AnyComponent.on_gitlab c) =
    (c.platform ≡ codes "gitlab") × Describes parse comp source c
IsFor parse comp source (AnyComponent.on_forgejo c) =
    (c.platform ≡ codes "forgejo") × Describes parse comp source c

abbrev HoldsOf {ℓ} : {A : Type ℓ} → (A → Type 0) → Result A → Type 0
HoldsOf P (err e) = Unit
HoldsOf P (ok a) = P a

module _ (parse : Str → Result Url) (comp : AppComponent) (url : Str) (old : Bool) where
  described :
      (p h r : Result Str)
      → get_git_platform parse url ≡ p
      → get_git_host parse url ≡ h
      → get_git_path parse url ≡ r
      → HoldsOf
          (Describes parse comp (url, old))
          (new_base_component parse comp url (get_versions comp) old)
  unfolding new_base_component
  described (err e) h r hp hh hr = rw hp tt
  described (ok p) (err e) r hp hh hr = rw (hp, hh) tt
  described (ok p) (ok h) (err e) hp hh hr = rw (hp, hh, hr) tt
  described (ok p) (ok h) (ok r) hp hh hr =
      rw (hp, hh, hr) (refl, refl, refl, hp, hh, hr, refl, refl, refl)

  described_as :
      (c : BaseComponent)
      → new_base_component parse comp url (get_versions comp) old ≡ ok c
      → Describes parse comp (url, old) c
  described_as c h = subst (HoldsOf (Describes parse comp (url, old))) h (
      described (get_git_platform parse url) (get_git_host parse url) (get_git_path parse url) refl
        refl refl)

abbrev made_of : Result (ℕ × Option Str) → Result BaseComponent → Result GithubComponent
made_of app base = do
  a ← wrapped (codes "failed to get GitHub APP ID and private key: ") app
  b ← base
  ok (record { base = b; app = a.0; key = a.1 })

made_of_base :
    (app : Result (ℕ × Option Str)) (base : Result BaseComponent)
    → HoldsOf (λ (g : GithubComponent). base ≡ ok g.base) (made_of app base)
made_of_base (err e) base = tt
made_of_base (ok a) (err e) = tt
made_of_base (ok a) (ok b) = refl

module _ (parse : Str → Result Url) (comp : AppComponent) (url : Str) (old : Bool) where
  base_of_github :
      (api : GithubApi) (secret : Result Secret) (st : GithubState) (g : GithubComponent)
      → (new_component api parse secret comp url (get_versions comp) old st).0 ≡ ok g
      → new_base_component parse comp url (get_versions comp) old ≡ ok g.base
  unfolding new_component
  base_of_github api secret st g h =
      let base : Result BaseComponent = new_base_component parse comp url (get_versions comp) old in
      subst (HoldsOf (λ (x : GithubComponent). base ≡ ok x.base)) h
        (made_of_base (get_app_id_and_key api secret st).0 base)

mapped :
    {A : Type 0}
    → (f : A → AnyComponent) (context : Str) (r : Result A) (c : AnyComponent)
    → map_result f (wrapped context r) ≡ ok c
    → (a : A) × (r ≡ ok a) × (c ≡ f a)
unfolding map_result
mapped f context (err e) c h = cc
mapped f context (ok a) c h = (a, refl, sym (ok_same h))
  where
    ok_same : {x y : AnyComponent} → ok x ≡ ok y → x ≡ y
    ok_same k = cc

module _ (api : GithubApi) (parse : Str → Result Url) (secret : Result Secret) (comp : AppComponent)
    (url : Str) (old : Bool) (platform : Str) (st : GithubState)
    (named : get_git_platform parse url ≡ ok platform) where
  same_platform : (c : BaseComponent) → Describes parse comp (url, old) c → c.platform ≡ platform
  same_platform c d = ok_same (sym d.3 ∙ named)
    where
      ok_same : {x y : Str} → ok x ≡ ok y → x ≡ y
      ok_same k = cc

  construct-IsFor :
      (c : AnyComponent)
      → (construct api parse secret comp (url, old) platform st).0 ≡ ok c
      → IsFor parse comp (url, old) c
  unfolding construct
  construct-IsFor c h = elim (Bool-cases (str_eq platform (codes "github"))) [
    | inl hub ↦
        let (g, made, same) = mapped AnyComponent.on_github _ _ c (rw hub at h) in
        let d =
          described_as parse comp url old g.base
            (base_of_github parse comp url old api secret st g made) in
        subst (IsFor parse comp (url, old)) (sym same)
          (same_platform g.base d ∙ (str_eq_iff platform (codes "github")).0 hub, d)
    | inr no_hub ↦ elim (Bool-cases (str_eq platform (codes "gitlab"))) [
      | inl lab ↦
          let (b, made, same) = mapped AnyComponent.on_gitlab _ _ c (rw (no_hub, lab) at h) in
          let d = described_as parse comp url old b made in
          subst (IsFor parse comp (url, old)) (sym same)
            (same_platform b d ∙ (str_eq_iff platform (codes "gitlab")).0 lab, d)
      | inr no_lab ↦ elim (Bool-cases (str_eq platform (codes "forgejo"))) [
        | inl jo ↦
            let (b, made, same) =
              mapped AnyComponent.on_forgejo _ _ c (rw (no_hub, no_lab, jo) at h) in
            let d = described_as parse comp url old b made in
            subst (IsFor parse comp (url, old)) (sym same)
              (same_platform b d ∙ (str_eq_iff platform (codes "forgejo")).0 jo, d)
        | inr no_jo ↦ absurd (refused (rw (no_hub, no_lab, no_jo) at h))
      ]
    ]
  ]
    where
      refused : {e : Error} → ◌≡◌ {A = Result AnyComponent} (err e) (ok c) → ⊥
      refused k = cc

construct_from-IsFor :
    (api : GithubApi) (parse : Str → Result Url) (secret : Result Secret) (comp : AppComponent)
    (st : GithubState) (source : Result (Str × Bool)) (c : AnyComponent)
    → (construct_from api parse secret comp source st).0 ≡ ok c
    → (s : Str × Bool) × (source ≡ ok s) × IsFor parse comp s c
unfolding construct_from construct_on
construct_from-IsFor api parse secret comp st (err e) c h = absurd (refused h)
  where
    refused : ◌≡◌ {A = Result AnyComponent} (err e) (ok c) → ⊥
    refused k = cc
construct_from-IsFor api parse secret comp st (ok (url, old)) c h =
    ((url, old), refl, on (get_git_platform parse url) refl h)
  where
    on :
        (p : Result Str)
        → get_git_platform parse url ≡ p
        → (construct_on api parse secret comp (url, old) p st).0 ≡ ok c
        → IsFor parse comp (url, old) c
    on (err e) named k = absurd (refused k)
      where
        refused : ◌≡◌ {A = Result AnyComponent} (err e) (ok c) → ⊥
        refused k = cc
    on (ok p) named k = construct-IsFor api parse secret comp url old p st named c k

-- A component that `NewGitComponent` makes describes the resource: its URL is the one that
-- `GetGitURL` chose, its platform, host and path are those of that URL and the versions those of
-- `GetVersions`, and it is the implementation for its platform.
pub new_git_component-IsFor :
    (api : GithubApi) (parse : Str → Result Url) (secret : Result Secret) (comp : AppComponent)
    (st : GithubState) (c : AnyComponent)
    → (new_git_component api parse secret comp st).0 ≡ ok c
    → (source : Str × Bool) × (get_git_url comp ≡ ok source) × IsFor parse comp source c
unfolding new_git_component
new_git_component-IsFor api parse secret comp st c h =
    construct_from-IsFor api parse secret comp st (get_git_url comp) c h
