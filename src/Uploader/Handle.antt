-- ===== src/Uploader/Handle.antt =====
-- The handlers of uploader/uploader.go. http.DetectContentType and the SHA-256 sum in hexadecimal
-- are parameters.
use Prim.Native.String.{◌++◌}
use potat_api.Base.{
  ℕ, String, Bool, true, false, Option, none, some, [], ◌∷◌, Reply, value, absent, fault, str_eq,
  if◌then◌else◌,
}
use potat_api.Http.{Writer, raw, json, set_header, write_header, write, http_error}
use potat_api.Services.{Cache}
use potat_api.Uploader.{
  Files, FileRow, Uploaded, Outcome, new_upload, get_file_by_key, delete_file_by_key,
  get_upload_created_at,
}

-- A request, as ParseMultipartForm, FormFile and ReadAll leave it: whether the form could be parsed,
-- and the field "file" if there is one, with its name and what could be read of it.
pub record Form : Type 0 where
  pub form_ok : Bool
  pub file : Option (String × Option String)
  pub host : String

-- getHashGenerator
unfoldable pub hash_generator : (String → String) → String → String → String
hash_generator sum secret key = sum (key ++ secret)

unfoldable pub upload_url : String → String → String
upload_url host key = "https://" ++ host ++ "/" ++ key

unfoldable pub send_upload : String → String → String → Writer Uploaded → Writer Uploaded
unfolding set_header write_header write
send_upload host key hash w =
    write (json (record { key = key; url = upload_url host key; delete_hash = hash }))
      (write_header 201 (set_header "Content-Type" "application/json" w))

abbrev pub disposition : Option String → Writer Uploaded → Writer Uploaded
disposition none w = w
disposition (some name) w =
    set_header "Content-Disposition" ("inline; filename=\"" ++ name ++ "\"") w

module _ {S : Type 0} where
  -- An error page, and nothing else.
  abbrev pub fail : String → ℕ → Writer Uploaded → S → Outcome S
  fail msg code w s = record { writer = http_error msg code w; spawned = []; rows = s }

  -- handleUpload after NewUpload.
  unfoldable pub finish_upload :
      (String → String) → String → String → String → Reply String × S → Writer Uploaded → Outcome S
  finish_upload hasher host key text (value created_at, s) w = record {
    writer = send_upload host key (hasher (key ++ created_at)) w;
    spawned = (key, text) ∷ [];
    rows = s;
  }
  finish_upload hasher host key text (absent, s) w = fail "Internal Server Error" 500 w s
  finish_upload hasher host key text (fault, s) w = fail "Internal Server Error" 500 w s

  -- handleGet after GetFileByKey.
  unfoldable pub send_row : String → Reply FileRow → Writer Uploaded → S → Outcome S
  unfolding set_header write
  send_row key (value r) w s = record {
    writer = write (raw r.file) (set_header "Content-Type" r.mime_type (disposition r.file_name w));
    spawned = (key, r.file) ∷ [];
    rows = s;
  }
  send_row key absent w s = fail "Not Found" 404 w s
  send_row key fault w s = fail "Internal Server Error" 500 w s

  -- handleGet by what the cache answers: any error, a missing key among them, is a miss.
  unfoldable pub serve_file :
      (String → String) → String → Reply String → Reply FileRow → Writer Uploaded → S → Outcome S
  unfolding set_header write_header write
  serve_file detect key (value text) row w s = record {
    writer = write (raw text) (
        write_header 200
          (set_header "X-Cache-Hit" "HIT" (set_header "Content-Type" (detect text) w)));
    spawned = [];
    rows = s;
  }
  serve_file detect key absent row w s = send_row key row w s
  serve_file detect key fault row w s = send_row key row w s

module _ (f : Files) (hasher detect : String → String) where
  -- The MIME type that was found goes where NewUpload has the file's name, and the name where it has
  -- the MIME type, as the source does.
  unfoldable pub store_file :
      String → String → String → Option String → f.State → Writer Uploaded → Outcome f.State
  store_file host name text none s w = fail "Internal Server Error" 500 w s
  store_file host name text (some key) s w =
      finish_upload hasher host key text (new_upload f key text (detect text) name s) w

  -- `drawn` is the key that RandomString gives, if it does.
  unfoldable pub receive_file :
      String
      → Option (String × Option String)
      → Option String
      → f.State
      → Writer Uploaded
      → Outcome f.State
  receive_file host none drawn s w = fail "File is required" 400 w s
  receive_file host (some (name, none)) drawn s w = fail "Failed to read file" 500 w s
  receive_file host (some (name, some text)) drawn s w = store_file host name text drawn s w

  unfoldable pub handle_upload : Form → Option String → f.State → Writer Uploaded → Outcome f.State
  handle_upload form drawn s w =
      if form.form_ok
      then receive_file form.host form.file drawn s w
      else fail "Failed to parse form" 400 w s

  -- handleDelete after the comparison, and before it.
  unfoldable pub confirm_delete : Bool × f.State → Writer Uploaded → Writer Uploaded × f.State
  unfolding write_header
  confirm_delete (true, s) w = (write_header 204 w, s)
  confirm_delete (false, s) w = (http_error "Not Found" 404 w, s)

  unfoldable pub delete_row_of :
      String → String → Reply String → f.State → Writer Uploaded → Writer Uploaded × f.State
  delete_row_of key hash (value created_at) s w =
      if str_eq hash (hasher (key ++ created_at))
      then confirm_delete (delete_file_by_key f key s) w
      else (http_error "Unauthorized" 401 w, s)
  delete_row_of key hash absent s w = (http_error "Not Found" 404 w, s)
  delete_row_of key hash fault s w = (http_error "Not Found" 404 w, s)

  module _ (c : Cache) where
    -- setRedis, for the cache duration of half an hour; its error is logged only.
    unfoldable pub set_redis : String → String → c.State → c.State
    set_redis key text s = (c.set_ex key text 1800 s).1

    unfoldable pub handle_delete :
        String
        → String
        → c.State
        → f.State
        → Writer Uploaded
        → (Writer Uploaded × f.State) × c.State
    handle_delete key hash cache s w =
        (delete_row_of key hash (get_upload_created_at f key s) s w, c.del key cache)

    unfoldable pub handle_get : String → c.State → f.State → Writer Uploaded → Outcome f.State
    handle_get key cache s w = serve_file detect key (c.get key cache) (get_file_by_key f key s) w s
