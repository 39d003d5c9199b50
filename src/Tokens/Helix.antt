-- ===== src/Tokens/Helix.antt =====
-- ValidateHelixToken and RefreshHelixToken of common/utils/requests.go, and what login makes of the
-- first. Twitch's answer to the request is a parameter, `none` where makeRequest fails.
pub mod Laws
use potat_api.Base.{
  ℕ, ◌≡◌, String, Bool, true, false, not, ◌&&◌, ◌||◌, Option, none, some, List, [], ◌∷◌, ◌==◌,
  str_eq, if◌then◌else◌,
}

-- `TwitchValidation`
pub record Validation : Type 0 where
  pub client_id : String
  pub login : String
  pub user_id : String
  pub scopes : List String
  pub expires_in : ℕ

abbrev pub no_validation : Validation
no_validation = record { client_id = ""; login = ""; user_id = ""; scopes = []; expires_in = 0 }

-- `GenericOAUTHResponse`
pub record Oauth : Type 0 where
  pub access_token : String
  pub refresh_token : String
  pub token_type : String
  pub scope : List String
  pub expires_in : ℕ

-- An HTTP response: its status, and what its body decodes to.
pub record Answer (A : Type 0) : Type 0 where
  pub status : ℕ
  pub body : Option A

-- The three results of ValidateHelixToken.
pub record Validated : Type 0 where
  pub ok : Bool
  pub validation : Validation
  pub failed : Bool

abbrev pub failure : Validated
failure = record { ok = false; validation = no_validation; failed = true }

-- With returnAll: the body has to decode.
unfoldable pub decode_validation : ℕ → Option Validation → Validated
decode_validation status none = failure
decode_validation status (some v) = record {
  ok = not (status == 401);
  validation = v;
  failed = false;
}

unfoldable pub read_validation : Bool → Option (Answer Validation) → Validated
unfolding decode_validation
read_validation return_all none = failure
read_validation return_all (some res) =
    if not return_all
    then record { ok = not (res.status == 401); validation = no_validation; failed = false }
    else decode_validation res.status res.body

unfoldable pub validate_helix_token : String → Bool → Option (Answer Validation) → Validated
unfolding read_validation
validate_helix_token token return_all answer =
    if str_eq token "" then failure else read_validation return_all answer

-- `err != nil || !ok || validation.UserID == ""` of login: whether the token is refused.
unfoldable pub login_refuses : String → Option (Answer Validation) → Bool
unfolding validate_helix_token
login_refuses token answer =
    let v = validate_helix_token token false answer in
    v.failed || not v.ok || str_eq v.validation.user_id ""

-- `config.Twitch`, as far as a refresh uses it.
pub record Credentials : Type 0 where
  pub client_id : String
  pub client_secret : String

-- How RefreshHelixToken ends: with tokens, with an error, with a nil dereference, or with Fatalln,
-- which ends the process.
pub data Refresh : Type 0 where
  refreshed : Oauth → Refresh
  failed : Refresh
  panicked : Refresh
  exited : Refresh

abbrev pub refreshed_by : Option Oauth → Refresh
refreshed_by none = failed
refreshed_by (some o) = refreshed o

-- The status is read before the error is looked at, and without a response there is none.
unfoldable pub read_refresh : Option (Answer Oauth) → Refresh
read_refresh none = panicked
read_refresh (some res) = if res.status == 200 then refreshed_by res.body else failed

unfoldable pub refresh_helix_token : Credentials → String → Option (Answer Oauth) → Refresh
unfolding read_refresh
refresh_helix_token config token answer =
    if str_eq token ""
    then failed
    else if str_eq config.client_id "" || str_eq config.client_secret ""
    then exited
    else read_refresh answer
