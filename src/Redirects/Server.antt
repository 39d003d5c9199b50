-- ===== src/Redirects/Server.antt =====
-- StartServing of redirects/redirects.go: the address, and the one route with the limiter around it.
-- The router of gorilla/mux is the record Mux of Api/Server; LogRequest, which passes the response on,
-- is in Middleware/Logging.
pub mod Laws
mod Tests
use Prim.Native.String.{◌++◌}
use potat_api.Base.{String, Option, none, some, List, [], ◌∷◌, str_eq, ◌||◌, if◌then◌else◌}
use potat_api.Http.{Request, Writer, Handler, write_header, http_error}
use potat_api.Middleware.RateLimit.{Counters, Formats, rate_limiter}
use potat_api.Middleware.RateLimit.Shared.{SharedRedis}
use potat_api.Api.Server.{Mux, Match, found_at, method_mismatch, no_match}
use potat_api.Redirects.{Table}
use potat_api.Redirects.Get.{get_redirect}

-- `none` is the Fatal that ends the program.
unfoldable pub address : String → String → Option String
address host port = if str_eq host "" || str_eq port "" then none else some (host ++ ":" ++ port)

abbrev pub routes : List (String × String)
routes = ("GET", "/{id}") ∷ []

module _ (r : Counters) {J : Type 0} (f : Formats) where
  open r use {State}

  module _ (handle_get : Handler J State) where
    abbrev pub serve_match : Match → Handler J State
    serve_match (found_at i) req w s = rate_limiter r f 100 60 handle_get req w s
    serve_match method_mismatch req w s = (write_header 405 w, s)
    serve_match no_match req w s = (http_error "404 page not found" 404 w, s)

    unfoldable pub serve : Mux → Handler J State
    serve mux req w s = serve_match (mux.match_route routes req) req w s

module _ (m : SharedRedis) {J : Type 0} (f : Formats) (t : Table) (id : Request → String) where
  open m use {counters, cache, view}

  -- getRedirect as the client sees it, on the Redis that the limiter has counted in; `id` is the value
  -- of the route's variable.
  abbrev pub redirector : t.State → Handler J counters.State
  redirector rows req w s = ((get_redirect cache t (id req) (view s) rows w).writer, s)

  -- The service: one Redis for the limiter and the handler.
  unfoldable pub start_serving : t.State → Mux → Handler J counters.State
  unfolding serve
  start_serving rows mux req w s = serve counters f (redirector rows) mux req w s
