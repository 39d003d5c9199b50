-- ===== src/Uploader/Server/Tests.antt =====
-- An upload with the key from an address that has made three requests.
use potat_api.Base.{◌≡◌, refl, String, [], ◌∷◌, true}
use potat_api.Http.{Request, Handler, Writer, new_writer, raw, write, header}
use potat_api.Middleware.RateLimit.{client_ip, get_ip_token, rate_limiter, limit_headers}
use potat_api.Middleware.RateLimit.Memory.{Memory, memory, formats, memory-IsReliable}
use potat_api.Middleware.Auth.{static_auth, remove_first}
use potat_api.Api.Server.Memory.{mux}
use potat_api.Uploader.Server.{serve, uploading}
use potat_api.Uploader.Server.Limits.{Ends, storing, serve-Ends}

abbrev upload : Request
upload = record {
  method = "POST";
  uri = "/upload";
  host = "i.potat.app";
  remote_addr = "10.0.0.1:999";
  headers = ("Authorization", "Bearer k") ∷ [];
}

abbrev three : Memory
three k = (3, true)

abbrev says : String → Handler String Memory
says text req w s = (write (raw text) w, s)

abbrev blank : Writer String
blank = new_writer

uploaded :
    ((serve memory formats "k"
        (says "get")
        (says "delete")
        (says "upload")
        mux
        upload
        blank
        three).0.chunks
      ≡ raw "upload" ∷ [])
unfolding serve uploading rate_limiter get_ip_token static_auth remove_first header client_ip write
    limit_headers
uploaded = refl

serve-Ends_example :
    Ends memory formats upload "k" mux blank three
      (says "get")
      (says "delete")
      (says "upload")
      storing
serve-Ends_example =
    serve-Ends memory formats upload "k" mux blank three (says "get") (says "delete")
      (says "upload") storing memory-IsReliable refl
