-- ===== src/Uploader/Server.antt =====
-- The server of StartServing in uploader/uploader.go: its three routes, each behind the limiters and
-- the check of the key that its router has. The handlers are those of Handle, here as parameters, and
-- the router of gorilla/mux is the record Mux of Api/Server.
pub mod Limits
mod Tests
use potat_api.Base.{ℕ, String, Option, none, some, List, [], ◌∷◌, get_elem?}
use potat_api.Http.{Handler, write_header, http_error}
use potat_api.Middleware.RateLimit.{Counters, Formats, rate_limiter}
use potat_api.Middleware.Auth.{Authenticator, static_auth}
use potat_api.Api.Server.{Mux, Match, found_at, method_mismatch, no_match, recovered}

-- The routes in the order in which they are added; the second is the subrouter of /delete.
abbrev pub routes : List (String × String)
routes = ("GET", "/{key}") ∷ ("GET", "/delete/{key}/{hash}") ∷ ("POST", "/upload") ∷ []

module _ (r : Counters) {J : Type 0} (f : Formats) (auth_key : String) where
  open r use {State}

  abbrev pub authenticator : Authenticator J
  authenticator = record { secret = auth_key; unauthorized = none }

  -- What the subrouters put around handleDelete and handleUpload.
  unfoldable pub deleting : Handler J State → Handler J State
  deleting handle_delete = rate_limiter r f 15 60 handle_delete

  unfoldable pub uploading : Handler J State → Handler J State
  uploading handle_upload req w s =
      recovered w s (static_auth authenticator (rate_limiter r f 25 60 handle_upload) req w s)

  module _ (handle_get handle_delete handle_upload : Handler J State) where
    abbrev pub handlers : List (Handler J State)
    handlers = handle_get ∷ deleting handle_delete ∷ uploading handle_upload ∷ []

    abbrev pub not_found : Handler J State
    not_found req w s = (http_error "404 page not found" 404 w, s)

    abbrev pub serve_at : Option (Handler J State) → Handler J State
    serve_at none req w s = not_found req w s
    serve_at (some handler) req w s = rate_limiter r f 200 60 handler req w s

    abbrev pub serve_match : Match → Handler J State
    serve_match (found_at i) req w s = serve_at (get_elem? handlers i) req w s
    serve_match method_mismatch req w s = (write_header 405 w, s)
    serve_match no_match req w s = not_found req w s

    unfoldable pub serve : Mux → Handler J State
    serve mux req w s = serve_match (mux.match_route routes req) req w s
