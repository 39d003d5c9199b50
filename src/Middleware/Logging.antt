-- ===== src/Middleware/Logging.antt =====
-- LogRequest of api/middleware/logging.go with its ResponseWriter. A handler is what it calls on the
-- ResponseWriter; the measured time in the line is left out.
pub mod Laws
mod Tests
use Prim.Native.String.{◌++◌ as append}
use text.Mathlib.Text.{starts_with}
use potat_api.Base.{
  ℕ, String, Bool, true, false, not, ◌&&◌, Option, none, some, List, [], ◌∷◌, ◌++◌, leb, str_eq,
  assign, lookup, if◌then◌else◌,
}
use potat_api.Base.Decimal.{decimal}
use potat_api.Http.{Chunk, Request, header}

pub data Call (J : Type 0) : Type 0 where
  set : String → String → Call J
  code : ℕ → Call J
  body : Chunk J → Call J

-- A ResponseWriter of net/http: its header map, what has been sent of the status and the headers, and
-- the body. A header that is set once they are sent does not reach the client.
pub record Response (J : Type 0) : Type 0 where
  pub live : List (String × String)
  pub sent : Option (ℕ × List (String × String))
  pub chunks : List (Chunk J)

-- `loggingResponseWriter`: `headers_set` says whether its field headers is not nil; then it is the
-- header map of the inner writer.
pub record LoggingWriter (J : Type 0) : Type 0 where
  pub inner : Response J
  pub headers_set : Bool
  pub status_code : ℕ

pub data Level : Type 0 where
  error : Level
  warn : Level
  debug : Level

-- What is observed of a request: the labels of the metric, and the level and text of the log line.
pub record Observed : Type 0 where
  pub labels : List String
  pub line : Option (Level × String)

abbrev pub or_miss : String → String
or_miss hit = if str_eq hit "" then "MISS" else hit

unfoldable pub level_of : ℕ → Level
level_of n = if leb 500 n then error else if leb 400 n then warn else debug

abbrev pub first_sent :
    ℕ
    → List (String × String)
    → Option (ℕ × List (String × String))
    → Option (ℕ × List (String × String))
first_sent n hs none = some (n, hs)
first_sent n hs (some before) = some before

-- What the client gets when the handler has returned.
abbrev pub client_status : Option (ℕ × List (String × String)) → ℕ
client_status none = 200
client_status (some (n, hs)) = n

abbrev pub client_headers :
    List (String × String) → Option (ℕ × List (String × String)) → List (String × String)
client_headers live none = live
client_headers live (some (n, hs)) = hs

module _ {J : Type 0} where
  -- WriteHeader: only the first call counts.
  abbrev pub send_code : ℕ → Response J → Response J
  send_code n r = record r { sent = first_sent n r.live r.sent }

  abbrev pub set_live : String → String → Response J → Response J
  set_live k v r = record r { live = assign k v r.live }

  -- Write, which sends 200 if nothing is sent yet.
  abbrev pub send_body : Chunk J → Response J → Response J
  send_body c r = record r { sent = first_sent 200 r.live r.sent; chunks = r.chunks ++ c ∷ [] }

  -- A call on a ResponseWriter.
  abbrev pub apply : Call J → Response J → Response J
  apply (set k v) r = set_live k v r
  apply (code n) r = send_code n r
  apply (body c) r = send_body c r

  unfoldable pub play : List (Call J) → Response J → Response J
  play [] r = r
  play (c ∷ cs) r = play cs (apply c r)

  -- loggingResponseWriter.WriteHeader; the other methods are those of the inner writer.
  unfoldable pub write_header_logged : ℕ → LoggingWriter J → LoggingWriter J
  write_header_logged n lrw = record {
    inner = send_code n lrw.inner;
    headers_set = true;
    status_code = n;
  }

  abbrev pub apply_logged : Call J → LoggingWriter J → LoggingWriter J
  apply_logged (set k v) lrw = record lrw { inner = set_live k v lrw.inner }
  apply_logged (code n) lrw = write_header_logged n lrw
  apply_logged (body c) lrw = record lrw { inner = send_body c lrw.inner }

  unfoldable pub play_logged : List (Call J) → LoggingWriter J → LoggingWriter J
  unfolding write_header_logged
  play_logged [] lrw = lrw
  play_logged (c ∷ cs) lrw = play_logged cs (apply_logged c lrw)

  abbrev pub new_logging_writer : Response J → LoggingWriter J
  new_logging_writer r = record { inner = r; headers_set = false; status_code = 200 }

  unfoldable pub cache_hit : LoggingWriter J → String
  unfolding header
  cache_hit lrw = or_miss (if lrw.headers_set then header "X-Cache-Hit" lrw.inner.live else "")

  unfoldable pub log_line : Request → String → String → LoggingWriter J → String
  log_line req agent hit lrw = append "Host: " (
      append req.host (
        append " | " (
          append req.method (
            append " " (
              append req.uri (
                append " | Cache " (
                  append hit (
                    append " | Status: "
                      (append (decimal lrw.status_code) (append " | User-Agent: " agent))))))))))

  -- The handler's calls, through the middleware; what the client gets, and what is observed.
  unfoldable pub log_request : Request → List (Call J) → Response J → Response J × Observed
  unfolding play_logged cache_hit level_of log_line header
  log_request req calls w =
      let lrw = play_logged calls (new_logging_writer w) in
      let hit = cache_hit lrw in
      let agent = header "User-Agent" req.headers in
      (
        lrw.inner,
        record {
          labels =
              req.host
              ∷ req.uri
              ∷ req.remote_addr
              ∷ req.method
              ∷ decimal lrw.status_code
              ∷ hit
              ∷ [];
          line =
              if starts_with "chatterino-api-cache" agent
              then none
              else some (level_of lrw.status_code, log_line req agent hit lrw);
        },
      )
