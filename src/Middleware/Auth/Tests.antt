-- ===== src/Middleware/Auth/Tests.antt =====
-- The authenticators run on requests.
use Prim.Native.String.{◌++◌}
use potat_api.Base.{
  ◌≡◌, ◌≢◌, refl, String, Bool, true, Option, none, some, [], ◌∷◌, Reply, value, eq_iff, lookup,
  strip_prefix, arith,
}
use potat_api.Base.Int.{ℤ, pos}
use potat_api.Http.{Request, Handler, new_writer, header, write_header}
use potat_api.Middleware.Auth.{Authenticator, remove_first, static_auth}
use potat_api.Middleware.Auth.Laws.{static_auth-panics}

abbrev uploader : Authenticator String
uploader = record { secret = "hunter2"; unauthorized = none }

abbrev api : Authenticator String
api = record { secret = "hunter2"; unauthorized = some write_header }

abbrev handler : Handler String Bool
handler req w s = (write_header 200 w, s)

abbrev upload : Request
upload = record {
  method = "POST";
  uri = "/upload";
  host = "i.potat.app";
  remote_addr = "10.0.0.1:999";
  headers = ("Authorization", "Bearer nope") ∷ [];
}

remove_run : remove_first "Bearer " "token Bearer x" ≡ "token x"
unfolding remove_first strip_prefix
remove_run = refl

sent : header "Authorization" upload.headers ≡ "Bearer " ++ "nope"
unfolding header lookup
sent = refl

abbrev tried : String
tried = "nope"

wrong : tried ≢ uploader.secret
wrong h = ground (arith, eq_iff "nope" "hunter2")

upload_panics : static_auth uploader handler upload new_writer true ≡ none
upload_panics = static_auth-panics uploader handler upload new_writer true "nope" sent wrong refl

abbrev parse : String → Option ℤ
parse token = some (pos 7)

abbrev users : ℤ → Reply String
users id = value "ryan"

abbrev greet : String → Handler String Bool
greet user req w s = (write_header 200 w, s)
