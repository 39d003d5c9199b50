-- ===== src/Tokens/Sweep.antt =====
-- refreshOrDelete, validateTokens and refreshAllHelixTokens of common/db/loops.go. The table
-- connection_oauth is a parameter: `Store` holds its upsert, with what PostgreSQL documents of it.
-- What Twitch answers to a token is a parameter too.
pub mod Laws
use potat_api.Base.{
  ℕ, suc, ◌+◌, ◌≡◌, ◌≢◌, String, Bool, true, false, not, Option, none, some, List, [], ◌∷◌, str_eq,
  if◌then◌else◌,
}
use potat_api.Tokens.Helix.{
  Validation, Validated, Answer, Oauth, Credentials, Refresh, refreshed, failed, panicked, exited,
  validate_helix_token, refresh_helix_token,
}

-- `PlatformOauth`, with the fields that the sweeps read.
pub record Connection : Type 0 where
  pub platform_id : String
  pub access_token : String
  pub refresh_token : String

pub record Store : Type 1 where
  pub State : Type 0
  -- upsertOAuthToken's statement, of a Twitch user's id and the new tokens; whether it succeeded.
  pub upsert : String → Oauth → State → Bool × State
  -- The tokens of a Twitch user.
  pub row : String → State → Option (String × String)
  pub upsert-done :
      (k : String) (o : Oauth) (s : State)
      → (upsert k o s).0 ≡ true
      → row k (upsert k o s).1 ≡ some (o.access_token, o.refresh_token)
  pub upsert-failed :
      (k j : String) (o : Oauth) (s : State)
      → (upsert k o s).0 ≡ false
      → row j (upsert k o s).1 ≡ row j s
  pub upsert-other :
      (k j : String) (o : Oauth) (s : State) → k ≢ j → row j (upsert k o s).1 ≡ row j s

-- How refreshOrDelete ends: refreshed, not refreshed (with or without an error), or not at all.
pub data Ending : Type 0 where
  good : Ending
  bad : Ending
  crashed : Ending

pub record Twitch : Type 0 where
  pub validate : String → Option (Answer Validation)
  pub refresh : String → Option (Answer Oauth)

-- The counters of a sweep, and the table.
pub record Tally (S : Type 0) : Type 0 where
  pub kept : ℕ
  pub lost : ℕ
  pub rows : S

module _ (st : Store) where
  unfoldable pub upsert_oauth_token : Connection → Oauth → st.State → Bool × st.State
  upsert_oauth_token con o s = st.upsert con.platform_id o s

  abbrev pub ending : Bool → Ending
  ending true = good
  ending false = bad

  -- refreshOrDelete after RefreshHelixToken.
  unfoldable pub save_refresh : Connection → Refresh → st.State → Ending × st.State
  unfolding upsert_oauth_token
  save_refresh con (refreshed o) s =
      (ending (upsert_oauth_token con o s).0, (upsert_oauth_token con o s).1)
  save_refresh con failed s = (bad, s)
  save_refresh con panicked s = (crashed, s)
  save_refresh con exited s = (crashed, s)

  unfoldable pub refresh_or_delete :
      Credentials → Twitch → Connection → st.State → Ending × st.State
  refresh_or_delete config t con s =
      if str_eq con.refresh_token ""
      then (bad, s)
      else save_refresh con
          (refresh_helix_token config con.refresh_token (t.refresh con.refresh_token)) s

  -- One row of refreshAllHelixTokens, and one of validateTokens whose token is not valid: both count
  -- so. `none` is a crash.
  unfoldable pub count : Ending × st.State → ℕ → ℕ → Option (Tally st.State)
  count (good, s) kept lost = some (record { kept = kept + 1; lost = lost; rows = s })
  count (bad, s) kept lost = some (record { kept = kept; lost = lost + 1; rows = s })
  count (crashed, s) kept lost = none

  module _ (config : Credentials) (t : Twitch) where
    -- One row of validateTokens, by the check of its token; an error is skipped.
    unfoldable pub validate_row : Connection → Validated → Tally st.State → Option (Tally st.State)
    validate_row con v tally =
        if v.failed
        then some tally
        else if not v.ok
        then count (refresh_or_delete config t con tally.rows) tally.kept tally.lost
        else some (record tally { kept = tally.kept + 1 })

    -- The rows that the query gives; `none` among them is a scan error, which is skipped.
    unfoldable pub validate_tokens :
        List (Option Connection) → Tally st.State → Option (Tally st.State)
    validate_tokens [] tally = some tally
    validate_tokens (none ∷ cons) tally = validate_tokens cons tally
    validate_tokens (some con ∷ cons) tally =
        elim (validate_row con
          (validate_helix_token con.access_token false (t.validate con.access_token)) tally) [
            | none ↦ none
            | some tally' ↦ validate_tokens cons tally'
          ]

    unfoldable pub refresh_all_helix_tokens :
        List (Option Connection) → Tally st.State → Option (Tally st.State)
    refresh_all_helix_tokens [] tally = some tally
    refresh_all_helix_tokens (none ∷ cons) tally = refresh_all_helix_tokens cons tally
    refresh_all_helix_tokens (some con ∷ cons) tally =
        elim (count (refresh_or_delete config t con tally.rows) tally.kept tally.lost) [
          | none ↦ none
          | some tally' ↦ refresh_all_helix_tokens cons tally'
        ]
