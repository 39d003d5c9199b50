-- ===== src/Api/Server.antt =====
-- The registry of routes and the server of api/api.go, with InjectDatabases of
-- api/middleware/context.go. The router of gorilla/mux is the record Mux. LogRequest, which passes the
-- response on, is in Middleware/Logging. A handler gets the values of the request's context.
pub mod Find
pub mod Laws
pub mod Memory
mod Tests
use potat_api.Base.{
  ℕ, ◌≡◌, ◌⊎◌, String, Bool, true, false, Option, none, some, List, [], ◌∷◌, ◌++◌, map, All,
  get_elem?, Reply, if◌then◌else◌,
}
use potat_api.Base.Int.{ℤ}
use potat_api.Http.{Request, Writer, Handler, write_header}
use potat_api.Api.{generic_response}
use potat_api.Middleware.RateLimit.{Counters, Formats, rate_limiter}
use potat_api.Middleware.Auth.{Authenticator, dynamic_auth}

-- Which clients are in the context, and the user under AuthedUser.
pub record Context (User : Type 0) : Type 0 where
  pub postgres : Bool
  pub redis : Bool
  pub clickhouse : Bool
  pub user : Option User

abbrev pub background : {User : Type 0} → Context User
background = record { postgres = false; redis = false; clickhouse = false; user = none }

-- InjectDatabases around `next`.
unfoldable pub inject_databases :
    {User J S : Type 0} → (Context User → Handler J S) → Context User → Handler J S
inject_databases next ctx = next (record ctx { postgres = true; redis = true; clickhouse = true })

-- `Route`
pub record Route (H : Type 0) : Type 0 where
  pub handler : H
  pub path : String
  pub method : String
  pub use_auth : Bool

-- `Server`: the routes of the router and of its authenticated subrouter.
pub record Server (H : Type 0) : Type 0 where
  pub router : List (Route H)
  pub authed_router : List (Route H)

module _ {H : Type 0} where
  unfoldable pub set_route : Route H → List (Route H) → List (Route H)
  set_route route routes = routes ++ route ∷ []

  unfoldable pub register_route : Route H → Server H → Server H
  register_route route a =
      if route.use_auth
      then record a { authed_router = a.authed_router ++ route ∷ [] }
      else record a { router = a.router ++ route ∷ [] }

  -- The loop of StartServing over the registry.
  unfoldable pub register_routes : List (Route H) → Server H → Server H
  unfolding register_route
  register_routes [] a = a
  register_routes (route ∷ routes) a = register_routes routes (register_route route a)

  abbrev pub new_server : Server H
  new_server = record { router = []; authed_router = [] }

  -- The routes with whether they are the subrouter's, which is added to the router before any route.
  unfoldable pub all_routes : Server H → List (Bool × Route H)
  all_routes a = map (λ x. (true, x)) a.authed_router ++ map (λ x. (false, x)) a.router

  -- The method and path of a route.
  abbrev pub pattern_of : Route H → String × String
  pattern_of route = (route.method, route.path)

  abbrev pub patterns : List (Bool × Route H) → List (String × String)
  patterns [] = []
  patterns ((authed, route) ∷ routes) = pattern_of route ∷ patterns routes

-- What a router finds for a request: a route, only routes of other methods, or nothing.
pub data Match : Type 0 where
  found_at : ℕ → Match
  method_mismatch : Match
  no_match : Match

pub record Mux : Type 0 where
  -- Whether a request has a method and fits a path.
  pub fits : String × String → Request → Bool
  pub match_route : List (String × String) → Request → Match
  -- A route that is found is one of the table and fits.
  pub match_route-fits :
      (table : List (String × String)) (req : Request) (i : ℕ)
      → match_route table req ≡ found_at i
      → (p : String × String) × (get_elem? table i ≡ some p) × (fits p req ≡ true)
  -- If none is found, none fits.
  pub match_route-misses :
      (table : List (String × String)) (req : Request)
      → (match_route table req ≡ method_mismatch) ⊎ (match_route table req ≡ no_match)
      → All (λ p. fits p req ≡ false) table

-- A handler with the values of its request's context.
abbrev pub RouteHandler : Type 0 → Type 0 → Type 0 → Type 0
RouteHandler User J S = Context User → Handler J S

-- A panic of a handler ends the request; net/http recovers.
abbrev pub recovered : {J S : Type 0} → Writer J → S → Option (Writer J × S) → Writer J × S
recovered w s none = (w, s)
recovered w s (some done) = done

-- Paths that the router redirects to a cleaned form are no requests here.
module _ (r : Counters) {J User : Type 0} (f : Formats) (a : Authenticator J)
    (verify_jwt : String → Option ℤ) (user_by_id : ℤ → Reply User) where
  open r use {State}

  -- A route with what its router puts around it.
  unfoldable pub serve_route : Bool → Route (RouteHandler User J State) → RouteHandler User J State
  serve_route authed route ctx req w s =
      if authed
      then recovered w s (
          dynamic_auth a ctx.postgres verify_jwt user_by_id
            (λ u. route.handler (record ctx { user = some u })) req w s)
      else route.handler ctx req w s

  -- The middleware of StartServing around a route that is found.
  unfoldable pub serve_found : Bool → Route (RouteHandler User J State) → Handler J State
  unfolding inject_databases serve_route
  serve_found authed route =
      inject_databases (λ ctx. rate_limiter r f 100 60 (serve_route authed route ctx)) background

  -- The server of StartServing; `took` is the time for the answer 404.
  module _ (mux : Mux) (not_found : J) (took : String) where
    abbrev pub serve_at : Option (Bool × Route (RouteHandler User J State)) → Handler J State
    serve_at none req w s = (generic_response 404 not_found took w, s)
    serve_at (some (authed, route)) req w s = serve_found authed route req w s

    abbrev pub serve_match :
        List (Bool × Route (RouteHandler User J State)) → Match → Handler J State
    serve_match routes (found_at i) req w s = serve_at (get_elem? routes i) req w s
    serve_match routes method_mismatch req w s = (write_header 405 w, s)
    serve_match routes no_match req w s = (generic_response 404 not_found took w, s)

    unfoldable pub serve : List (Route (RouteHandler User J State)) → Handler J State
    serve registry req w s =
        let routes = all_routes (register_routes registry new_server) in
        serve_match routes (mux.match_route (patterns routes) req) req w s
