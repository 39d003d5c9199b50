-- ===== src/Login.antt =====
-- twitchLoginHandler of api/routes/get/login.go with setReplyDeny. The map replyDeny and the
-- goroutines that wait to delete from it are a state. The drawn UUID, what Twitch answers and
-- url.Values.Encode are parameters.
pub mod Desk
pub mod Safety
mod Tests
use potat_api.Base.{
  ℕ, String, Bool, true, false, not, ◌&&◌, ◌||◌, Option, none, some, List, [], ◌∷◌, str_eq,
  if◌then◌else◌,
}
use Prim.Native.String.{◌++◌ as append}
use potat_api.Http.{Writer, new_writer, raw, set_header, write_header, write, http_error, redirect}
use potat_api.Api.{generic_response}
use potat_api.Account.{AuthorizedUserResponse}
use potat_api.Middleware.Auth.{remove_first}
use potat_api.Tokens.Helix.{Validation, Answer, login_refuses}

-- `replyDeny` as its membership, the values that the sleeping goroutines will delete, and the states of
-- the callbacks that have found theirs in the map and not yet deleted it.
pub record Login : Type 0 where
  pub replies : String → Bool
  pub timers : List String
  pub waiting : List String

abbrev pub no_login : Login
no_login = record { replies = λ j. false; timers = []; waiting = [] }

-- `config.Twitch`
pub record Twitch : Type 0 where
  pub client_id : String
  pub client_secret : String
  pub oauth_uri : String

-- How the exchange of the code ends: the request is not built, it fails, its answer does not decode,
-- or there is an access token.
pub data Exchange : Type 0 where
  unbuilt : Exchange
  unanswered : Exchange
  unparsed : Exchange
  granted : String → Exchange

abbrev pub scopes : String
scopes =
    "channel:bot chat:read user:read:moderated_channels channel:manage:broadcast channel:manage:redemptions channel:read:subscriptions moderator:read:followers channel:read:hype_train channel:read:guest_star"

unfoldable pub put_reply : String → (String → Bool) → String → Bool
put_reply nonce replies j = str_eq nonce j || replies j

unfoldable pub delete_reply : String → (String → Bool) → String → Bool
delete_reply nonce replies j = not (str_eq nonce j) && replies j

-- setReplyDeny, with the UUID it draws.
unfoldable pub set_reply_deny : String → Login → Login
unfolding put_reply
set_reply_deny nonce s = record s { replies = put_reply nonce s.replies; timers = nonce ∷ s.timers }

-- Whether a goroutine of setReplyDeny still sleeps on the value, and the others.
unfoldable pub wake : String → List String → Bool × List String
wake nonce [] = (false, [])
wake nonce (t ∷ ts) =
    let rest = wake nonce ts in if str_eq t nonce then (true, ts) else (rest.0, t ∷ rest.1)

-- A goroutine of setReplyDeny after its twenty seconds; without one nothing happens.
unfoldable pub expire : String → Login → Login
unfolding delete_reply wake
expire nonce s =
    if (wake nonce s.timers).0
    then record s { replies = delete_reply nonce s.replies; timers = (wake nonce s.timers).1 }
    else s

abbrev pub page_start : String
page_start =
    "\n\t\t<script>\n\t\t\tif (window.opener) {\n\t\t\t\twindow.opener.postMessage(token and stuff lol, '"

abbrev pub page_end : String
page_end = "');\n\t\t\t\twindow.close();\n\t\t\t}\n\t\t</script>\n\t\t"

-- What happens at the service: a request up to the Load of its state, the rest of a callback that has
-- found its state, or the end of a goroutine's sleep. Others may come between the first two.
pub data Event : Type 0 where
  request : String → String → String → Event
  go_on : String → Exchange → (String → Option (Answer Validation)) → String → Event
  timeout : String → Event

-- A request that is answered before the Delete, or one that goes on.
pub data Gate : Type 0 where
  answered : Writer AuthorizedUserResponse → Gate
  passed : Gate

module _ (config : Twitch) where
  -- From ValidateHelixToken on.
  unfoldable pub finish_login :
      String
      → Option (Answer Validation)
      → String
      → Writer AuthorizedUserResponse
      → Writer AuthorizedUserResponse
  unfolding generic_response set_header write_header write
  finish_login token answer took w =
      if login_refuses token answer
      then generic_response 401
          (record { users = []; error = some "Failed to validate access token" }) took w
      else write (raw (append page_start (append (remove_first "api." config.oauth_uri) page_end)))
          (write_header 200 (set_header "Content-Type" "text/html" w))

  -- From the exchange of the code on.
  unfoldable pub exchange_code :
      Exchange
      → (String → Option (Answer Validation))
      → String
      → Writer AuthorizedUserResponse
      → Writer AuthorizedUserResponse
  unfolding http_error
  exchange_code unbuilt validate took w = http_error "Failed to create request" 500 w
  exchange_code unanswered validate took w = http_error "Failed to get access token" 500 w
  exchange_code unparsed validate took w = http_error "Failed to parse token response" 500 w
  exchange_code (granted token) validate took w = finish_login token (validate token) took w

module _ (config : Twitch) (encode : List (String × String) → String) where
  unfoldable pub oauth_url : String → String
  oauth_url nonce = append "https://id.twitch.tv/oauth2/authorize?" (
      encode (
        ("client_id", config.client_id)
        ∷ ("force_verify", "false")
        ∷ ("redirect_uri", append config.oauth_uri "login")
        ∷ ("response_type", "code")
        ∷ ("scope", scopes)
        ∷ ("state", nonce)
        ∷ []))

  -- Up to the Load of the state. `code` and `state` are the values of the query, `nonce` the UUID that
  -- is drawn if one is needed.
  unfoldable pub load_state :
      String → String → String → Login → Writer AuthorizedUserResponse → Gate × Login
  unfolding oauth_url redirect http_error set_reply_deny
  load_state code state nonce s w =
      if str_eq code ""
      then (answered (redirect (oauth_url nonce) 302 w), set_reply_deny nonce s)
      else if not (s.replies state)
      then (answered (http_error "Forbidden" 403 w), s)
      else (passed, s)

  -- From the Delete of the state on.
  unfoldable pub delete_state :
      String
      → Exchange
      → (String → Option (Answer Validation))
      → String
      → Login
      → Writer AuthorizedUserResponse
      → Writer AuthorizedUserResponse × Login
  delete_state state exchange validate took s w = (
    exchange_code config exchange validate took w,
    record s { replies = delete_reply state s.replies },
  )

  abbrev pub through :
      String
      → Exchange
      → (String → Option (Answer Validation))
      → String
      → Writer AuthorizedUserResponse
      → Gate × Login
      → Writer AuthorizedUserResponse × Login
  through state exchange validate took w (answered w', s) = (w', s)
  through state exchange validate took w (passed, s) = delete_state state exchange validate took s w

  -- A handler from its start to its end, when nothing comes between.
  unfoldable pub twitch_login_handler :
      String
      → String
      → String
      → Exchange
      → (String → Option (Answer Validation))
      → String
      → Login
      → Writer AuthorizedUserResponse
      → Writer AuthorizedUserResponse × Login
  unfolding load_state delete_state
  twitch_login_handler code state nonce exchange validate took s w =
      through state exchange validate took w (load_state code state nonce s w)

  -- The answer, if there is one yet, and the callback that waits if not.
  abbrev pub wait_or_answer : String → Gate × Login → List (Writer AuthorizedUserResponse) × Login
  wait_or_answer state (answered w, s) = (w ∷ [], s)
  wait_or_answer state (passed, s) = ([], record s { waiting = state ∷ s.waiting })

  -- The answers that an event gives, and the new state; without such a callback nothing goes on.
  unfoldable pub step : Event → Login → List (Writer AuthorizedUserResponse) × Login
  unfolding load_state delete_state expire wake
  step (request code state nonce) s =
      wait_or_answer state (load_state code state nonce s new_writer)
  step (go_on state exchange validate took) s =
      let (waits, others) = wake state s.waiting in
      let (w, s') =
        delete_state state exchange validate took (record s { waiting = others }) new_writer in
      if waits then (w ∷ [], s') else ([], s)
  step (timeout nonce) s = ([], expire nonce s)
