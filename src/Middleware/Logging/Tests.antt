-- ===== src/Middleware/Logging/Tests.antt =====
-- A handler that answers from its cache.
use potat_api.Base.{String, none, [], ◌∷◌, List}
use potat_api.Http.{Request, raw}
use potat_api.Middleware.Logging.{Call, set, code, body, Response}

abbrev req : Request
req = record {
  method = "GET";
  uri = "/help";
  host = "api";
  remote_addr = "1.2.3.4:5";
  headers = ("User-Agent", "curl") ∷ [];
}

abbrev calls : List (Call String)
calls = set "X-Cache-Hit" "HIT" ∷ code 404 ∷ body (raw "text") ∷ []

abbrev blank : Response String
blank = record { live = []; sent = none; chunks = [] }
