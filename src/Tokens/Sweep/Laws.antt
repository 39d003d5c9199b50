-- ===== src/Tokens/Sweep/Laws.antt =====
-- What the two sweeps of common/db/loops.go count, and what they do to the table.
use potat_api.Base.{
  ℕ, suc, ◌+◌, ◌≤◌, ◌≡◌, ◌≢◌, refl, sym, ◌∙◌, inl, inr, String, false, Option, none, some, some_inj,
  List, [], ◌∷◌, ◌++◌, str_eq, eq_iff, Bool-cases, Option-cases, arith,
}
use potat_api.Tokens.Helix.{
  Oauth, Credentials, Refresh, Validated, refreshed, failed, panicked, exited, validate_helix_token,
}
use potat_api.Tokens.Helix.Laws.{refresh_helix_token_iff}
use potat_api.Tokens.Sweep.{
  Connection, Store, Twitch, Tally, Ending, good, bad, crashed, upsert_oauth_token, save_refresh,
  refresh_or_delete, count, validate_row, validate_tokens, refresh_all_helix_tokens,
}

-- The rows that could be scanned.
abbrev pub scanned : List (Option Connection) → ℕ
scanned [] = 0
scanned (none ∷ cons) = scanned cons
scanned (some con ∷ cons) = suc (scanned cons)

module _ (st : Store) where
  -- Whoever has tokens still has some.
  abbrev pub Keeps : st.State → st.State → Type 0
  Keeps s s' = (k : String) → st.row k s ≢ none → st.row k s' ≢ none

  upsert-Keeps :
      (con : Connection) (o : Oauth) (s : st.State) → Keeps s (upsert_oauth_token st con o s).1
  unfolding upsert_oauth_token
  upsert-Keeps con o s k there = elim (Bool-cases (st.upsert con.platform_id o s).0) [
    | inr refused ↦ λ gone. there (sym (st.upsert-failed con.platform_id k o s refused) ∙ gone)
    | inl done ↦ elim (Bool-cases (str_eq con.platform_id k)) [
      | inl same ↦
          let e = (eq_iff con.platform_id k).0 same in
          λ gone. cc (rw e at (st.upsert-done con.platform_id o s done), gone)
      | inr apart ↦ λ gone. there (
          sym (
            st.upsert-other con.platform_id k o s (λ e. cc (apart, (eq_iff con.platform_id k).1 e)))
          ∙ gone)
    ]
  ]

  save_refresh-Keeps :
      (con : Connection) (r : Refresh) (s : st.State) → Keeps s (save_refresh st con r s).1
  unfolding save_refresh
  save_refresh-Keeps con (refreshed o) s = upsert-Keeps con o s
  save_refresh-Keeps con failed s = λ k there. there
  save_refresh-Keeps con panicked s = λ k there. there
  save_refresh-Keeps con exited s = λ k there. there

  refresh_or_delete-Keeps :
      (config : Credentials) (t : Twitch) (con : Connection) (s : st.State)
      → Keeps s (refresh_or_delete st config t con s).1
  unfolding refresh_or_delete
  refresh_or_delete-Keeps config t con s = elim (Bool-cases (str_eq con.refresh_token "")) [
    | inl empty ↦ rw empty (λ k there. there)
    | inr given ↦ rw given (save_refresh-Keeps con _ s)
  ]

  count_lem :
      (e : Ending) (s : st.State) (kept lost : ℕ) (t' : Tally st.State)
      → count st (e, s) kept lost ≡ some t'
      → (t'.kept + t'.lost ≡ kept + lost + 1) × (t'.rows ≡ s)
  unfolding count
  count_lem good s kept lost t' h = rw (← some_inj h) (omega arith, refl)
  count_lem bad s kept lost t' h = rw (← some_inj h) (omega arith, refl)
  count_lem crashed s kept lost t' h = cc

  module _ (config : Credentials) (t : Twitch) where
    row_lem :
        (con : Connection) (tally t' : Tally st.State)
        → count st (refresh_or_delete st config t con tally.rows) tally.kept tally.lost ≡ some t'
        → (t'.kept + t'.lost ≡ tally.kept + tally.lost + 1) × Keeps tally.rows t'.rows
    row_lem con tally t' h =
        let r = refresh_or_delete st config t con tally.rows in
        let (sum, same) = count_lem r.0 r.1 tally.kept tally.lost t' h in
        (sum, rw same (refresh_or_delete-Keeps config t con tally.rows))

    -- A sweep of refreshAllHelixTokens that ends has counted every row that it could scan once, as
    -- refreshed or as failed; and whatever it counts as expunged, no user's tokens are deleted.
    pub refresh_all_helix_tokens-counts :
        (cons : List (Option Connection)) (tally t' : Tally st.State)
        → refresh_all_helix_tokens st config t cons tally ≡ some t'
        → (t'.kept + t'.lost ≡ tally.kept + tally.lost + scanned cons) × Keeps tally.rows t'.rows
    unfolding refresh_all_helix_tokens
    refresh_all_helix_tokens-counts [] tally t' h =
        rw (← some_inj h) (omega arith, λ k there. there)
    refresh_all_helix_tokens-counts (none ∷ cons) tally t' h =
        refresh_all_helix_tokens-counts cons tally t' h
    refresh_all_helix_tokens-counts (some con ∷ cons) tally t' h =
        elim (Option-cases
          (count st (refresh_or_delete st config t con tally.rows) tally.kept tally.lost)) [
            | inl stop ↦ absurd (cc (rw (stop, refresh_all_helix_tokens) at h))
            | inr (t₁, one) ↦
                let (sum, kept) = row_lem con tally t₁ one in
                let (sum', kept') =
                  refresh_all_helix_tokens-counts cons t₁ t'
                    (rw (one, refresh_all_helix_tokens) at h) in
                (omega (arith, sum, sum'), λ k there. kept' k (kept k there))
          ]

    validate_row_lem :
        (con : Connection) (v : Validated) (tally t' : Tally st.State)
        → validate_row st config t con v tally ≡ some t'
        → (t'.kept + t'.lost ≤ tally.kept + tally.lost + 1)
          × (tally.kept + tally.lost ≤ t'.kept + t'.lost)
          × Keeps tally.rows t'.rows
    unfolding validate_row
    validate_row_lem con v tally t' h = elim (Bool-cases v.failed) [
      | inl broken ↦
          rw (← some_inj (rw (broken, validate_row) at h))
            (omega arith, omega arith, λ k there. there)
      | inr fine ↦ elim (Bool-cases v.ok) [
        | inl valid ↦
            rw (← some_inj (rw (fine, valid, validate_row) at h))
              (omega arith, omega arith, λ k there. there)
        | inr invalid ↦
            let (sum, kept) = row_lem con tally t' (rw (fine, invalid, validate_row) at h) in
            (omega (arith, sum), omega (arith, sum), kept)
      ]
    ]

    -- A sweep of validateTokens that ends has counted each row that it could scan at most once, as
    -- validated or as deleted, and none that it could not; and whatever it counts as deleted, no
    -- user's tokens are deleted.
    pub validate_tokens-counts :
        (cons : List (Option Connection)) (tally t' : Tally st.State)
        → validate_tokens st config t cons tally ≡ some t'
        → (t'.kept + t'.lost ≤ tally.kept + tally.lost + scanned cons)
          × (tally.kept + tally.lost ≤ t'.kept + t'.lost)
          × Keeps tally.rows t'.rows
    unfolding validate_tokens
    validate_tokens-counts [] tally t' h =
        rw (← some_inj h) (omega arith, omega arith, λ k there. there)
    validate_tokens-counts (none ∷ cons) tally t' h = validate_tokens-counts cons tally t' h
    validate_tokens-counts (some con ∷ cons) tally t' h =
        let v = validate_helix_token con.access_token false (t.validate con.access_token) in
        elim (Option-cases (validate_row st config t con v tally)) [
          | inl stop ↦ absurd (cc (rw (stop, validate_tokens) at h))
          | inr (t₁, one) ↦
              let (most, least, kept) = validate_row_lem con v tally t₁ one in
              let (most', least', kept') =
                validate_tokens-counts cons t₁ t' (rw (one, validate_tokens) at h) in
              (
                omega (arith, most, most'),
                omega (arith, least, least'),
                λ k there. kept' k (kept k there),
              )
        ]

    count_crashes :
        (con : Connection) (tally : Tally st.State)
        → str_eq config.client_id "" ≡ false
        → str_eq config.client_secret "" ≡ false
        → str_eq con.refresh_token "" ≡ false
        → t.refresh con.refresh_token ≡ none
        → count st (refresh_or_delete st config t con tally.rows) tally.kept tally.lost ≡ none
    unfolding count refresh_or_delete save_refresh
    count_crashes con tally id secret given down =
        let any' : Oauth = record {
          access_token = "";
          refresh_token = "";
          token_type = "";
          scope = [];
          expires_in = 0;
        } in
        let ends =
          refresh_helix_token_iff config con.refresh_token (t.refresh con.refresh_token) any' given
            id secret in
        rw (given, ends.1.1 down) refl

    -- One request to Twitch that fails while a token is refreshed ends the sweep with a panic: with
    -- credentials, and a row that has a refresh token, no sweep over that row ends.
    pub refresh_all_helix_tokens-crashes :
        (before after : List (Option Connection)) (con : Connection) (tally : Tally st.State)
        → str_eq config.client_id "" ≡ false
        → str_eq config.client_secret "" ≡ false
        → str_eq con.refresh_token "" ≡ false
        → t.refresh con.refresh_token ≡ none
        → refresh_all_helix_tokens st config t (before ++ some con ∷ after) tally ≡ none
    unfolding refresh_all_helix_tokens
    refresh_all_helix_tokens-crashes [] after con tally id secret given down =
        rw (count_crashes con tally id secret given down, refresh_all_helix_tokens) refl
    refresh_all_helix_tokens-crashes (none ∷ before) after con tally id secret given down =
        refresh_all_helix_tokens-crashes before after con tally id secret given down
    refresh_all_helix_tokens-crashes (some other ∷ before) after con tally id secret given down =
        elim (Option-cases
          (count st (refresh_or_delete st config t other tally.rows) tally.kept tally.lost)) [
            | inl stop ↦ rw (stop, refresh_all_helix_tokens) refl
            | inr (t₁, one) ↦
                rw (one, refresh_all_helix_tokens)
                  (refresh_all_helix_tokens-crashes before after con t₁ id secret given down)
          ]
