-- ===== src/Http.antt =====
-- What the handlers use of net/http: requests, and the ResponseWriter as a state. A body is a list of
-- chunks, plain text or a value handed to json.Encoder; header names are in their canonical form.
-- The line break that http.Error adds to its message is left out.
use potat_api.Base.{ℕ, String, Option, none, some, List, [], ◌∷◌, ◌++◌, lookup, assign}

pub data Chunk (J : Type 0) : Type 0 where
  raw : String → Chunk J
  json : J → Chunk J

pub record Writer (J : Type 0) : Type 0 where
  pub headers : List (String × String)
  pub status : Option ℕ
  pub chunks : List (Chunk J)

pub record Request : Type 0 where
  pub method : String
  pub uri : String
  pub host : String
  pub remote_addr : String
  pub headers : List (String × String)

-- `Header.Get`: the empty text where the header is missing.
abbrev pub or_empty : Option String → String
or_empty none = ""
or_empty (some v) = v

unfoldable pub header : String → List (String × String) → String
unfolding lookup
header name hs = or_empty (lookup name hs)

abbrev pub or_code : Option ℕ → ℕ → ℕ
or_code none code = code
or_code (some old) code = old

module _ {J : Type 0} where
  abbrev pub new_writer : Writer J
  new_writer = record { headers = []; status = none; chunks = [] }

  unfoldable pub set_header : String → String → Writer J → Writer J
  set_header name v w = record w { headers = assign name v w.headers }

  -- Only the first call counts.
  unfoldable pub write_header : ℕ → Writer J → Writer J
  write_header code w = record w { status = some (or_code w.status code) }

  unfoldable pub write : Chunk J → Writer J → Writer J
  write c w = record w { status = some (or_code w.status 200); chunks = w.chunks ++ c ∷ [] }

  -- `http.Error`
  unfoldable pub http_error : String → ℕ → Writer J → Writer J
  unfolding set_header write_header write
  http_error msg code w = write (raw msg) (
      write_header code (
        set_header "X-Content-Type-Options" "nosniff"
          (set_header "Content-Type" "text/plain; charset=utf-8" w)))

  -- `http.Redirect` to an absolute URL.
  unfoldable pub redirect : String → ℕ → Writer J → Writer J
  unfolding set_header write_header
  redirect url code w = write_header code (set_header "Location" url w)

-- A handler, or middleware around one, over the state of the services that it uses.
abbrev pub Handler : Type 0 → Type 0 → Type 0
Handler J S = Request → Writer J → S → Writer J × S
