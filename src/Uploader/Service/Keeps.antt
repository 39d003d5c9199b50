-- ===== src/Uploader/Service/Keeps.antt =====
-- What reads and uploads keep of a file that is stored (uploader/uploader.go).
use potat_api.Base.{
  ◌≡◌, ◌≢◌, refl, sym, ap, ◌∙◌, inl, inr, String, Option, none, some, some_inj, Reply, value,
  absent, fault, Bool-cases, str_eq, eq_iff, All, All-append,
}
use potat_api.Http.{Writer, new_writer}
use potat_api.Services.{Cache}
use potat_api.Uploader.{Files, FileRow, Uploaded, Outcome, new_upload, get_file_by_key}
use potat_api.Uploader.Handle.{
  Form, finish_upload, store_file, receive_file, handle_upload, send_row, serve_file, handle_get,
}
use potat_api.Uploader.Service.{Service, answered}

module _ (c : Cache) (f : Files) (hasher detect : String → String) (k : String) (r : FileRow) where
  -- An entry to be cached is not of the key, or is the file of the row.
  abbrev pub IsDue : String × String → Type 0
  IsDue e = k ≡ e.0 → e.1 ≡ r.file

  -- The row is in the table, and what is cached under its key, or will be, is its file.
  pub record IsKept (s : Service c f) : Type 0 where
    pub here : f.row k s.rows ≡ some r
    pub cached : (v : String) → c.contents k s.cache ≡ some v → v ≡ r.file
    pub due : All IsDue s.tasks

  answered-IsKept :
      (s : Service c f) (o : Outcome f.State)
      → IsKept s
      → f.row k o.rows ≡ some r
      → All IsDue o.spawned
      → IsKept (answered s o)
  answered-IsKept s o kept here due = record {
    here = here;
    cached = kept.cached;
    due = All-append IsDue o.spawned s.tasks due kept.due;
  }

  send_row-keeps :
      (key : String) (row : Reply FileRow) (w : Writer Uploaded) (s : f.State)
      → f.row k s ≡ some r
      → ((x : FileRow) → row ≡ value x → f.row key s ≡ some x)
      → ((send_row key row w s).rows ≡ s) × All IsDue (send_row key row w s).spawned
  unfolding send_row
  send_row-keeps key (value x) w s here known = (
    refl,
    (
      λ e.
          ap (λ (y : FileRow). y.file)
            (some_inj (sym (known x refl) ∙ (sym (ap (λ j. f.row j s) e) ∙ here))),
      tt,
    ),
  )
  send_row-keeps key absent w s here known = (refl, tt)
  send_row-keeps key fault w s here known = (refl, tt)

  serve_file-keeps :
      (key : String) (hit : Reply String) (row : Reply FileRow) (w : Writer Uploaded) (s : f.State)
      → f.row k s ≡ some r
      → ((x : FileRow) → row ≡ value x → f.row key s ≡ some x)
      → ((serve_file detect key hit row w s).rows ≡ s)
        × All IsDue (serve_file detect key hit row w s).spawned
  unfolding serve_file
  serve_file-keeps key (value v) row w s here known = (refl, tt)
  serve_file-keeps key absent row w s here known = send_row-keeps key row w s here known
  serve_file-keeps key fault row w s here known = send_row-keeps key row w s here known

  pub handle_get-IsKept :
      (s : Service c f) (key : String)
      → IsKept s
      → IsKept (answered s (handle_get f hasher detect c key s.cache s.rows new_writer))
  unfolding handle_get get_file_by_key
  handle_get-IsKept s key kept =
      let (same, due) =
        serve_file-keeps key (c.get key s.cache) (f.select_file key s.rows) new_writer s.rows
          kept.here (λ x h. f.select_file-value key x s.rows h) in
      answered-IsKept s
        (serve_file detect key (c.get key s.cache) (f.select_file key s.rows) new_writer s.rows)
        kept (ap (f.row k) same ∙ kept.here) due

  finish-keeps :
      (host key text : String) (reply : Reply String) (s' : f.State) (w : Writer Uploaded)
      → ((t : String) → reply ≡ value t → k ≢ key)
      → ((finish_upload hasher host key text (reply, s') w).rows ≡ s')
        × All IsDue (finish_upload hasher host key text (reply, s') w).spawned
  unfolding finish_upload
  finish-keeps host key text (value t) s' w free = (refl, (λ e. absurd (free t refl e), tt))
  finish-keeps host key text absent s' w free = (refl, tt)
  finish-keeps host key text fault s' w free = (refl, tt)

  -- A key that is taken cannot be inserted.
  taken :
      (text mime name key t : String) (s : f.State)
      → f.row k s ≡ some r
      → (f.insert_row text mime name key s).0 ≡ value t
      → k ≢ key
  taken text mime name key t s here h e =
      let free = (f.insert_row-done text mime name key t s h).0 in
      let there : f.row key s ≡ some r = sym (ap (λ j. f.row j s) e) ∙ here in cc

  insert_row-keeps :
      (text mime name key : String) (s : f.State)
      → f.row k s ≡ some r
      → f.row k (f.insert_row text mime name key s).1 ≡ some r
  insert_row-keeps text mime name key s here = elim (Bool-cases (str_eq key k)) [
    | inr apart ↦
        f.insert_row-other text mime name key k s (λ e. cc (apart, (eq_iff key k).1 e)) ∙ here
    | inl same ↦
        f.insert_row-failed text mime name key k s
          (λ t h. taken text mime name key t s here h (sym ((eq_iff key k).0 same)))
        ∙ here
  ]

  receive-keeps :
      (host : String) (file : Option (String × Option String)) (drawn : Option String) (s : f.State)
      (w : Writer Uploaded)
      → f.row k s ≡ some r
      → (f.row k (receive_file f hasher detect host file drawn s w).rows ≡ some r)
        × All IsDue (receive_file f hasher detect host file drawn s w).spawned
  unfolding receive_file store_file new_upload
  receive-keeps host none drawn s w here = (here, tt)
  receive-keeps host (some (name, none)) drawn s w here = (here, tt)
  receive-keeps host (some (name, some text)) none s w here = (here, tt)
  receive-keeps host (some (name, some text)) (some key) s w here =
      let (same, due) =
        finish-keeps host key text (f.insert_row text (detect text) name key s).0
          (f.insert_row text (detect text) name key s).1 w
          (λ t h. taken text (detect text) name key t s here h) in
      (ap (f.row k) same ∙ insert_row-keeps text (detect text) name key s here, due)

  pub handle_upload-IsKept :
      (s : Service c f) (form : Form) (drawn : Option String)
      → IsKept s
      → IsKept (answered s (handle_upload f hasher detect form drawn s.rows new_writer))
  unfolding handle_upload
  handle_upload-IsKept s form drawn kept = elim (Bool-cases form.form_ok) [
    | inl parsed ↦
        let (here, due) = receive-keeps form.host form.file drawn s.rows new_writer kept.here in
        rw parsed (
          answered-IsKept s
            (receive_file f hasher detect form.host form.file drawn s.rows new_writer) kept here
            due)
    | inr refused ↦ rw refused (record { here = kept.here; cached = kept.cached; due = kept.due })
  ]
