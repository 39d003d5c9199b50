-- ===== src/Haste/Post.antt =====
-- handlePost and chooseKey of haste/haste.go. The keys that RandomString draws are a list, an error
-- among them is `none`; a list that runs out is a loop that goes on. The parser of media types is a
-- parameter.
pub mod Laws
pub mod Stores
use potat_api.Base.{
  String, Bool, true, false, not, ◌||◌, Option, none, some, List, [], ◌∷◌, Reply, value, absent,
  fault, str_eq, if◌then◌else◌,
}
use potat_api.Http.{Request, Writer, json, header, set_header, write_header, write, http_error}
use potat_api.Haste.{Pastes, Answer, created, get_haste, new_haste}

-- A request, as ParseForm and ReadAll leave it: whether the form could be parsed, and the body.
pub record Post : Type 0 where
  pub request : Request
  pub form_ok : Bool
  pub body : Option String

-- How the loop of chooseKey ends: with a key, with an error, or not within these draws.
pub data Draw : Type 0 where
  chosen : String → Draw
  failed : Draw
  looping : Draw

-- One turn of the loop, by GetHaste's answer; `later` is what the next turns give.
unfoldable pub settle : {S : Type 0} → String → Reply String × S → Draw × S → Draw × S
settle k (value text, s) later = if str_eq text "" then (chosen k, s) else later
settle k (absent, s) later = (chosen k, s)
settle k (fault, s) later = (failed, s)

abbrev pub or_json : String → String
or_json t = if str_eq t "" then "application/json" else t

unfoldable pub is_allowed : String → Bool
is_allowed t =
    str_eq t "text/plain"
    || str_eq t "text/markdown"
    || str_eq t "text/x-markdown"
    || str_eq t "application/json"

-- `mime.ParseMediaType` of the header; `none` is its error.
abbrev pub media_type : (String → Option String) → Request → Option String
media_type parse req = parse (or_json (header "Content-Type" req.headers))

unfoldable pub send_key : String → Writer Answer → Writer Answer
unfolding set_header write_header write
send_key key w =
    write (json (created key)) (write_header 200 (set_header "Content-Type" "application/json" w))

module _ (p : Pastes) (encode : String → String) where
  unfoldable pub choose_key : List (Option String) → p.State → Draw × p.State
  unfolding settle
  choose_key [] s = (looping, s)
  choose_key (none ∷ draws) s = (failed, s)
  choose_key (some k ∷ draws) s =
      settle k (get_haste p encode k s) (choose_key draws (get_haste p encode k s).1)

  -- After NewHaste.
  unfoldable pub confirm : String → Bool × p.State → Writer Answer → Writer Answer × p.State
  confirm key (true, s) w = (send_key key w, s)
  confirm key (false, s) w = (http_error "Internal server error" 500 w, s)

  -- After chooseKey: `none` while the loop still draws.
  unfoldable pub store :
      String → String → Draw × p.State → Writer Answer → Option (Writer Answer × p.State)
  store text source (chosen key, s) w = some (confirm key (new_haste p encode key text source s) w)
  store text source (failed, s) w = some (http_error "Internal server error" 500 w, s)
  store text source (looping, s) w = none

  -- The checks of the body, once it is read.
  unfoldable pub accept :
      Option String
      → String
      → String
      → List (Option String)
      → p.State
      → Writer Answer
      → Option (Writer Answer × p.State)
  accept none text source draws s w = some (http_error "Invalid content type" 415 w, s)
  accept (some media) text source draws s w =
      if not (is_allowed media)
      then some (http_error "Invalid media type" 415 w, s)
      else if str_eq text ""
      then some (http_error "Length required" 411 w, s)
      else store text source (choose_key draws s) w

  unfoldable pub read_body :
      Option String
      → Option String
      → String
      → List (Option String)
      → p.State
      → Writer Answer
      → Option (Writer Answer × p.State)
  read_body none media source draws s w = some (http_error "Error reading request body" 500 w, s)
  read_body (some text) media source draws s w = accept media text source draws s w

  unfoldable pub handle_post :
      (String → Option String)
      → Post
      → List (Option String)
      → p.State
      → Writer Answer
      → Option (Writer Answer × p.State)
  unfolding read_body
  handle_post parse post draws s w =
      if post.form_ok
      then read_body post.body (media_type parse post.request) post.request.remote_addr draws s w
      else some (http_error "Error parsing form" 400 w, s)
