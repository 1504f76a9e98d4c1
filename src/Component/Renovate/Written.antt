-- ===== src/Component/Renovate/Written.antt =====
-- internal/component: the entries of the shared Renovate configuration that a component writes.
use mintmaker.Base.{
  ℕ, true, false, Option, none, some, List, [], ◌∷◌, Str, codes, str_eq, str_eq_iff, lookup,
  insert_all, Dict, lookup-insert, HasDistinctKeys, override, insert_all-override, Result, ok, err,
  ◌≡◌, refl, sym, ap, ◌∙◌, subst, ◌⊎◌, inl, inr, Bool-cases,
}
use mintmaker.Cluster.Objects.{Secret}
use mintmaker.Component.Git.{BaseComponent}
use mintmaker.Component.Github.{GithubApi}
use mintmaker.Component.Renovate.{
  HostRule, Value, RenovateApi, get_host_rules, add_rules, with_host_rules, token_settings,
  app_settings,
}

-- No component writes this entry.
abbrev pub IsUnmanaged : Str → Type 0
IsUnmanaged j =
    (str_eq (codes "hostRules") j ≡ false)
    × (str_eq (codes "platform") j ≡ false)
    × (str_eq (codes "endpoint") j ≡ false)
    × (str_eq (codes "username") j ≡ false)
    × (str_eq (codes "gitAuthor") j ≡ false)
    × (str_eq (codes "repositories") j ≡ false)

-- The entries that a component writes besides the host rules.
pub record IsComplete (settings : Dict Value) : Type 0 where
  pub distinct : HasDistinctKeys settings
  pub only : (j : Str) → IsUnmanaged j → lookup j settings ≡ none
  pub all :
      (j : Str)
      → IsUnmanaged j
        ⊎ (str_eq (codes "hostRules") j ≡ true)
        ⊎ ((v : Value) × (lookup j settings ≡ some v))

key_in :
    (settings : Dict Value) (k j : Str) (v : Value)
    → lookup k settings ≡ some v
    → str_eq k j ≡ true
    → (v' : Value) × (lookup j settings ≡ some v')
key_in settings k j v h e = (v, subst (λ i. lookup i settings ≡ some v) ((str_eq_iff k j).0 e) h)

module _ (settings : Dict Value) (p e u g r : Value) where
  all_of :
      (lookup (codes "platform") settings ≡ some p)
      → (lookup (codes "endpoint") settings ≡ some e)
      → (lookup (codes "username") settings ≡ some u)
      → (lookup (codes "gitAuthor") settings ≡ some g)
      → (lookup (codes "repositories") settings ≡ some r)
      → (j : Str)
      → IsUnmanaged j
        ⊎ (str_eq (codes "hostRules") j ≡ true)
        ⊎ ((v : Value) × (lookup j settings ≡ some v))
  all_of hp he hu hg hr j = elim (Bool-cases (str_eq (codes "platform") j)) [
    | inl on ↦ inr (inr (key_in settings _ j p hp on))
    | inr p' ↦ elim (Bool-cases (str_eq (codes "endpoint") j)) [
      | inl on ↦ inr (inr (key_in settings _ j e he on))
      | inr e' ↦ elim (Bool-cases (str_eq (codes "username") j)) [
        | inl on ↦ inr (inr (key_in settings _ j u hu on))
        | inr u' ↦ elim (Bool-cases (str_eq (codes "gitAuthor") j)) [
          | inl on ↦ inr (inr (key_in settings _ j g hg on))
          | inr g' ↦ elim (Bool-cases (str_eq (codes "repositories") j)) [
            | inl on ↦ inr (inr (key_in settings _ j r hr on))
            | inr r' ↦ elim (Bool-cases (str_eq (codes "hostRules") j)) [
              | inl on ↦ inr (inl on)
              | inr h' ↦ inl (h', p', e', u', g', r')
            ]
          ]
        ]
      ]
    ]
  ]

token_settings_only :
    (c : BaseComponent) (endpoint branch : Str) (j : Str)
    → IsUnmanaged j
    → lookup j (token_settings c endpoint branch) ≡ none
unfolding token_settings lookup
token_settings_only c endpoint branch j (h, p, e, u, g, r) = rw (p, e, u, g, r) refl

pub token_settings-IsComplete :
    (c : BaseComponent) (endpoint branch : Str) → IsComplete (token_settings c endpoint branch)
unfolding token_settings lookup str_eq
token_settings-IsComplete c endpoint branch = record {
  distinct = (refl, (refl, (refl, (refl, (refl, tt)))));
  only = token_settings_only c endpoint branch;
  all = all_of (token_settings c endpoint branch) _ _ _ _ _ refl refl refl refl refl;
}

app_settings_only :
    (github : GithubApi) (c : BaseComponent) (slug : Str) (bot : ℕ) (branch : Str) (j : Str)
    → IsUnmanaged j
    → lookup j (app_settings github c slug bot branch) ≡ none
unfolding app_settings lookup
app_settings_only github c slug bot branch j (h, p, e, u, g, r) = rw (g, u, p, e, r) refl

pub app_settings-IsComplete :
    (github : GithubApi) (c : BaseComponent) (slug : Str) (bot : ℕ) (branch : Str)
    → IsComplete (app_settings github c slug bot branch)
unfolding app_settings lookup str_eq
app_settings-IsComplete github c slug bot branch = record {
  distinct = (refl, (refl, (refl, (refl, (refl, tt)))));
  only = app_settings_only github c slug bot branch;
  all = all_of (app_settings github c slug bot branch) _ _ _ _ _ refl refl refl refl refl;
}

-- The two maps hold the same under a key.
abbrev pub Agree : Str → Dict Value → Dict Value → Type 0
Agree j a b = lookup j a ≡ lookup j b

module _ (api : RenovateApi) where
  add_rules_unmanaged :
      (rules : Result (List HostRule)) (config : Dict Value) (j : Str)
      → str_eq (codes "hostRules") j ≡ false
      → Agree j (add_rules rules config) config
  unfolding add_rules
  add_rules_unmanaged (err e) config j h = refl
  add_rules_unmanaged (ok []) config j h = refl
  add_rules_unmanaged (ok (r ∷ rules)) config j h =
      lookup-insert (codes "hostRules") j (Value.host_rules (r ∷ rules)) config ∙ (rw h refl)

  pub with_host_rules_unmanaged :
      (secret : Option Secret) (config : Dict Value) (j : Str)
      → str_eq (codes "hostRules") j ≡ false
      → Agree j (with_host_rules api secret config) config
  unfolding with_host_rules
  with_host_rules_unmanaged none config j h = refl
  with_host_rules_unmanaged (some secret) config j h =
      add_rules_unmanaged (get_host_rules api secret) config j h

  -- A write of complete settings leaves the other entries.
  pub written_unmanaged :
      (settings : Dict Value) (secret : Option Secret) (config : Dict Value) (j : Str)
      → IsComplete settings
      → IsUnmanaged j
      → Agree j (insert_all settings (with_host_rules api secret config)) config
  written_unmanaged settings secret config j complete free =
      insert_all-override settings (with_host_rules api secret config) j complete.distinct
      ∙ (rw (complete.only j free) (with_host_rules_unmanaged secret config j free.0))

  pub with_own_rules :
      (secret : Secret) (r : HostRule) (rules : List HostRule) (config : Dict Value) (j : Str)
      → get_host_rules api secret ≡ ok (r ∷ rules)
      → str_eq (codes "hostRules") j ≡ true
      → lookup j (with_host_rules api (some secret) config) ≡ some (Value.host_rules (r ∷ rules))
  unfolding with_host_rules add_rules
  with_own_rules secret r rules config j own h =
      rw (own, add_rules)
        (lookup-insert (codes "hostRules") j (Value.host_rules (r ∷ rules)) config ∙ (rw h refl))

  -- With host rules of its own, what a component writes does not depend on the managed entries.
  pub written-Agree :
      (settings : Dict Value) (secret : Secret) (r : HostRule) (rules : List HostRule)
      (a b : Dict Value)
      → IsComplete settings
      → get_host_rules api secret ≡ ok (r ∷ rules)
      → ((j : Str) → IsUnmanaged j → Agree j a b)
      → (j : Str)
      → Agree j
          (insert_all settings (with_host_rules api (some secret) a))
          (insert_all settings (with_host_rules api (some secret) b))
  written-Agree settings secret r rules a b complete own same j =
      insert_all-override settings (with_host_rules api (some secret) a) j complete.distinct
      ∙ under
      ∙ sym (insert_all-override settings (with_host_rules api (some secret) b) j complete.distinct)
    where
      over : Dict Value → Option Value
      over m = override (lookup j settings) (lookup j (with_host_rules api (some secret) m))

      under : over a ≡ over b
      under = elim (complete.all j) [
        | inl free ↦ ap (override (lookup j settings)) (
            with_host_rules_unmanaged (some secret) a j free.0
            ∙ same j free
            ∙ sym (with_host_rules_unmanaged (some secret) b j free.0))
        | inr managed ↦ elim managed [
          | inl h ↦ ap (override (lookup j settings)) (
              with_own_rules secret r rules a j own h
              ∙ sym (with_own_rules secret r rules b j own h))
          | inr (v, h) ↦ rw h refl
        ]
      ]
