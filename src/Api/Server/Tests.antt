-- ===== src/Api/Server/Tests.antt =====
-- A server with the routes of api/routes in the order of their packages, and two requests to it.
use potat_api.Base.{
  ◌≡◌, refl, String, Bool, true, false, Option, none, some, List, [], ◌∷◌, Reply, value, str_eq,
  if◌then◌else◌,
}
use potat_api.Base.Int.{ℤ, pos}
use potat_api.Http.{Request, Writer, raw, new_writer, header, write_header, write}
use potat_api.Middleware.RateLimit.{get_ip_token, limit_headers, rate_limiter}
use potat_api.Middleware.RateLimit.Memory.{Memory, memory, empty, formats}
use potat_api.Middleware.Auth.{dynamic_auth, remove_first, admit, send_unauthorized}
use potat_api.Api.{generic_response}
use potat_api.Api.Server.{
  Route, RouteHandler, set_route, all_routes, register_routes, serve_found, serve,
}
use potat_api.Api.Server.Memory.{mux}
use potat_api.Api.Server.Laws.{Served, authenticator, serve-Served}

-- Handlers that show the user and that PostgreSQL is there.
abbrev name_of : Option String → String
name_of none = "nobody"
name_of (some u) = u

abbrev greet : RouteHandler String String Memory
greet ctx req w s =
    if ctx.postgres then (write (raw (name_of ctx.user)) w, s) else (write_header 500 w, s)

abbrev route_to : String → String → Bool → Route (RouteHandler String String Memory)
route_to m p auth = record { handler = greet; path = p; method = m; use_auth = auth }

abbrev registry : List (Route (RouteHandler String String Memory))
registry =
    route_to "GET" "/help" false
    ∷ route_to "GET" "/login" false
    ∷ route_to "GET" "/twitch/me" true
    ∷ route_to "POST" "/redirect" false
    ∷ []

abbrev request : String → List (String × String) → Request
request uri headers = record {
  method = "GET";
  uri = uri;
  host = "api.potat.app";
  remote_addr = "10.0.0.1:999";
  headers = headers;
}

abbrev parse : String → Option ℤ
parse token = if str_eq token "t0k3n" then some (pos 7) else none

abbrev users : ℤ → Reply String
users id = value "ryan"

abbrev run : Request → Writer String × Memory
run req =
    serve memory formats (authenticator memory formats "s" write_header parse users req) parse users
      mux "Not Found" "1ms" registry req new_writer empty

abbrev me : Request
me = request "/twitch/me" (("Authorization", "Bearer t0k3n") ∷ [])

me_greeted : (run me).0.chunks ≡ raw "ryan" ∷ []
unfolding serve all_routes register_routes serve_found rate_limiter get_ip_token header dynamic_auth
    limit_headers admit remove_first write
me_greeted = refl

me_refused : (run (request "/twitch/me" [])).0.status ≡ some 418
unfolding serve all_routes register_routes serve_found rate_limiter get_ip_token header dynamic_auth
    limit_headers send_unauthorized write_header
me_refused = refl

unknown_path : (run (request "/twitch/you" [])).0.status ≡ some 404
unfolding serve all_routes register_routes generic_response
unknown_path = refl

registry_built :
    set_route (route_to "POST" "/redirect" false) (
      set_route
        (route_to "GET" "/twitch/me" true)
        (set_route (route_to "GET" "/login" false) (set_route (route_to "GET" "/help" false) [])))
    ≡ registry
unfolding set_route
registry_built = refl

serve-Served_example :
    Served memory formats "s" write_header parse users me mux "Not Found" "1ms" registry new_writer
      empty
      (run me)
serve-Served_example =
    serve-Served memory formats "s" write_header parse users me mux "Not Found" "1ms" registry
      new_writer empty
