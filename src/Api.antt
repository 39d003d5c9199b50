-- ===== src/Api.antt =====
-- GenericResponse of api/api.go, by which the routes of the API answer.
pub mod Server
use potat_api.Base.{ℕ, String}
use potat_api.Http.{Writer, json, set_header, write_header, write}

-- GenericResponse; `took` is the time since the start.
unfoldable pub generic_response : {J : Type 0} → ℕ → J → String → Writer J → Writer J
unfolding set_header write_header write
generic_response code response took w = write (json response) (
    write_header code
      (set_header "X-Request-Duration" took (set_header "Content-Type" "application/json" w)))
