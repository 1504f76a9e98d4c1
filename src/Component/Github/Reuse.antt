-- ===== src/Component/Github/Reuse.antt =====
-- internal/component/github/github.go: for how long `GetToken` returns a token again.
use mintmaker.Base.{
  ℕ, ◌+◌, ◌≤◌, true, false, Option, none, some, List, Str, str_eq, str_eq_iff, ltb, ok, ◌≡◌, refl,
  ◌∙◌, arith,
}
use mintmaker.Component.Tokens.{
  TokenInfo, get_cached, set_token, get_cached-set_token, usable, is_expiring,
}
use mintmaker.Component.Github.{AppInstallation, GithubState, GithubApi}
use mintmaker.Component.Github.Access.{
  GithubComponent, get_installation_id, Moment, installation_key, keep_token, fetch_token,
  token_for, github_token,
}

usable_lasting :
    (now min_validity : ℕ) (info : TokenInfo)
    → now + min_validity ≤ info.expires_at
    → usable now min_validity (some info) ≡ some info
unfolding usable is_expiring
usable_lasting now min_validity info h =
    let lasting : ltb info.expires_at (now + min_validity) ≡ false = ground arith in rw lasting refl

just_set :
    (now min_validity : ℕ) (key : Str) (info : TokenInfo) (st : GithubState)
    → now + min_validity ≤ info.expires_at
    → get_cached now min_validity key (set_token key info st.tokens) ≡ some info
just_set now min_validity key info st h =
    let same : str_eq key key ≡ true = (str_eq_iff key key).1 refl in
    get_cached-set_token now min_validity key key info st.tokens
    ∙ (rw same (usable_lasting now min_validity info h))

module _ (api : GithubApi) (t : Moment) (installations : Option (List AppInstallation))
    (c : GithubComponent) (id : ℕ)
    (known : get_installation_id installations c.base.repository ≡ ok id) where
  github_token_cached :
      (st : GithubState) (info : TokenInfo)
      → get_cached t.checked t.min_validity (installation_key api id) st.tokens ≡ some info
      → github_token api t installations c st ≡ (ok info.token, st)
  unfolding github_token token_for
  github_token_cached st info h = rw (known, github_token, h) refl

  github_token_fetched :
      (st : GithubState) (token : Str)
      → get_cached t.checked t.min_validity (installation_key api id) st.tokens ≡ none
      → fetch_token api c id ≡ ok token
      → github_token api t installations c st ≡ (
        ok token,
        record st {
          tokens =
              set_token
                (installation_key api id)
                (record { token = token; expires_at = t.fetched + t.token_ttl })
                st.tokens;
        },
      )
  unfolding github_token token_for keep_token
  github_token_fetched st token h f = rw (known, github_token, h, f) refl

-- `GetToken` keeps the token that it fetched: it returns the new token, and a later call for the
-- same repository, made when the configured minimum of its validity is still ahead, returns that
-- token and changes nothing, whatever GitHub would answer to it by then.
pub github_token_reused :
    (api later : GithubApi) (t t' : Moment) (installations : Option (List AppInstallation))
    (c : GithubComponent) (st : GithubState) (id : ℕ) (token : Str)
    → get_installation_id installations c.base.repository ≡ ok id
    → get_cached t.checked t.min_validity (installation_key api id) st.tokens ≡ none
    → fetch_token api c id ≡ ok token
    → installation_key later id ≡ installation_key api id
    → t'.checked + t'.min_validity ≤ t.fetched + t.token_ttl
    → ((github_token api t installations c st).0 ≡ ok token)
      × (github_token later t' installations c (github_token api t installations c st).1
          ≡ (ok token, (github_token api t installations c st).1))
github_token_reused api later t t' installations c st id token known absent fetched same lasts =
    let info : TokenInfo = record { token = token; expires_at = t.fetched + t.token_ttl } in
    let st' : GithubState = record st {
      tokens = set_token (installation_key api id) info st.tokens;
    } in
    let first : github_token api t installations c st ≡ (ok token, st') =
      github_token_fetched api t installations c id known st token absent fetched in
    let found : get_cached t'.checked t'.min_validity (installation_key later id) st'.tokens
        ≡ some info =
      rw same (just_set t'.checked t'.min_validity (installation_key api id) info st lasts) in
    rw first (refl, github_token_cached later t' installations c id known st' info found)
