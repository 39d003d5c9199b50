-- ===== src/Uploader/Service/Tests.antt =====
-- A file that is uploaded, asked for with a wrong hash, cached and read.
use potat_api.Base.{◌≡◌, String, true, some, []}
use potat_api.Http.{new_writer}
use potat_api.Services.Memory.{memory_cache, no_entries}
use potat_api.Uploader.{Uploaded}
use potat_api.Uploader.Memory.{memory_files, no_rows}
use potat_api.Uploader.Handle.{Form, handle_upload, handle_delete}
use potat_api.Uploader.Service.{Service, answered}

abbrev hasher : String → String
hasher key = key

abbrev detect : String → String
detect text = "image/png"

abbrev form : Form
form = record { form_ok = true; file = some ("cat.png", some "PNG…"); host = "i.potat.app" }

abbrev at_start : Service memory_cache memory_files
at_start = record { cache = no_entries; rows = no_rows; tasks = [] }

abbrev uploaded : Service memory_cache memory_files
uploaded =
    answered at_start
      (handle_upload memory_files hasher detect form (some "abc") no_rows new_writer)

abbrev guessed : Service memory_cache memory_files
guessed =
    let o =
      handle_delete memory_files hasher detect memory_cache "abc" "guess" uploaded.cache
        uploaded.rows new_writer in
    record uploaded { cache = o.1; rows = o.0.1 }

abbrev sent : Uploaded
sent = record { key = "abc"; url = "https://i.potat.app/abc"; delete_hash = "abct0" }

-- Everybody guesses.
abbrev Asked : String → String → Type 0
Asked key hash = hash ≡ "guess"

-- The limiter counts under addresses.
abbrev Address : String → Type 0
Address k = k ≡ "1.2.3.4:5"
