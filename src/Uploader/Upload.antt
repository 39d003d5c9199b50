-- ===== src/Uploader/Upload.antt =====
-- What handleUpload of uploader/uploader.go stores, and what becomes of it.
use Prim.Native.String.{◌++◌ as append}
use potat_api.Base.{
  ◌≡◌, ◌≢◌, refl, sym, ap, ◌∙◌, ◌⊎◌, inl, inr, String, true, Option, none, some, some_inj, [], ◌∷◌,
  ◌++◌, Reply, Reply-cases, value, absent, fault, Bool-cases, eq_iff, lookup, assign, lookup-assign,
}
use potat_api.Http.{Writer, raw, json, set_header, http_error}
use potat_api.Services.{Cache}
use potat_api.Uploader.{
  Files, FileRow, Uploaded, Outcome, new_upload, get_file_by_key, get_upload_created_at,
  delete_file_by_key,
}
use potat_api.Uploader.Handle.{
  Form, upload_url, send_upload, finish_upload, send_row, serve_file, store_file, receive_file,
  handle_upload, confirm_delete, delete_row_of, handle_delete, handle_get,
}

module _ (f : Files) (hasher detect : String → String) where
  -- The row that an upload leaves: its MIME type is the file's name, and its file name is the MIME
  -- type that was found.
  abbrev pub swapped : String → String → String → FileRow
  swapped name text t = record {
    file = text;
    mime_type = name;
    file_name = some (detect text);
    created_at = t;
  }

  -- The answer that an upload gets.
  abbrev pub receipt : String → String → String → Uploaded
  receipt host key t = record {
    key = key;
    url = upload_url host key;
    delete_hash = hasher (append key t);
  }

  -- The row was added under a key that was free, and the answer is its receipt, with the status 201.
  abbrev pub Stores :
      String → String → String → String → f.State → Writer Uploaded → Outcome f.State → Type 0
  Stores host key name text s w o =
      (t : String) × (f.row key s ≡ none)
      × (f.row key o.rows ≡ some (swapped name text t))
      × (o.writer.status ≡ some 201)
      × (o.writer.chunks ≡ w.chunks ++ json (receipt host key t) ∷ [])
      × (o.spawned ≡ (key, text) ∷ [])

  -- Nothing was stored or is to be cached, and the answer is an error page.
  abbrev pub Fails : f.State → Outcome f.State → Type 0
  Fails s o =
      ((o.writer.status ≡ some 400) ⊎ (o.writer.status ≡ some 500))
      × (o.spawned ≡ [])
      × ((j : String) → f.row j o.rows ≡ f.row j s)

  finish-Stores :
      (host key name text : String) (s s' : f.State) (r : Reply String) (w : Writer Uploaded)
      → w.status ≡ none
      → ((t : String)
          → r ≡ value t
          → (f.row key s ≡ none) × (f.row key s' ≡ some (swapped name text t)))
      → (((t : String) → r ≢ value t) → (j : String) → f.row j s' ≡ f.row j s)
      → Stores host key name text s w (finish_upload hasher host key text (r, s') w)
        ⊎ Fails s (finish_upload hasher host key text (r, s') w)
  unfolding finish_upload
  finish-Stores host key name text s s' (value t) w blank added kept = inl (
    t,
    (added t refl).0,
    (added t refl).1,
    unfold send_upload in rw blank refl,
    unfold send_upload in refl,
    refl,
  )
  finish-Stores host key name text s s' absent w blank added kept =
      inr (inr (unfold http_error in rw blank refl), refl, kept (λ t h. cc))
  finish-Stores host key name text s s' fault w blank added kept =
      inr (inr (unfold http_error in rw blank refl), refl, kept (λ t h. cc))

  receive-Stores :
      (host : String) (file : Option (String × Option String)) (drawn : Option String) (s : f.State)
      (w : Writer Uploaded)
      → w.status ≡ none
      → ((key : String) × (name : String) × (text : String) × (file ≡ some (name, some text))
          × (drawn ≡ some key)
          × Stores host key name text s w (receive_file f hasher detect host file drawn s w))
        ⊎ Fails s (receive_file f hasher detect host file drawn s w)
  unfolding receive_file store_file new_upload
  receive-Stores host none drawn s w blank =
      inr (inl (unfold http_error in rw blank refl), refl, λ j. refl)
  receive-Stores host (some (name, none)) drawn s w blank =
      inr (inr (unfold http_error in rw blank refl), refl, λ j. refl)
  receive-Stores host (some (name, some text)) none s w blank =
      inr (inr (unfold http_error in rw blank refl), refl, λ j. refl)
  receive-Stores host (some (name, some text)) (some key) s w blank =
      elim (finish-Stores host key name text s (f.insert_row text (detect text) name key s).1
        (f.insert_row text (detect text) name key s).0 w blank
        (λ t h. f.insert_row-done text (detect text) name key t s h)
        (λ no' j. f.insert_row-failed text (detect text) name key j s no')) [
          | inl yes' ↦ inl (key, name, text, refl, refl, yes')
          | inr no' ↦ inr no'
        ]

  -- An upload is answered 201 with the key that was drawn, its URL and the hash of the key and the
  -- time of storing, and then a row that did not exist has the file; that row has the file's name as
  -- its MIME type and the MIME type as its name. Else it is answered 400 or 500, and nothing is
  -- stored or cached.
  pub handle_upload-Stores :
      (form : Form) (drawn : Option String) (s : f.State) (w : Writer Uploaded)
      → w.status ≡ none
      → ((key : String) × (name : String) × (text : String) × (form.file ≡ some (name, some text))
          × (drawn ≡ some key)
          × Stores form.host key name text s w (handle_upload f hasher detect form drawn s w))
        ⊎ Fails s (handle_upload f hasher detect form drawn s w)
  unfolding handle_upload
  handle_upload-Stores form drawn s w blank = elim (Bool-cases form.form_ok) [
    | inl parsed ↦ rw parsed (receive-Stores form.host form.file drawn s w blank)
    | inr refused ↦ rw refused (inr (inl (unfold http_error in rw blank refl), refl, λ j. refl))
  ]

  -- While the cache does not have it, an uploaded file is sent with the status 200 and the name that
  -- it was uploaded by as its Content-Type, if the database answers; what was found to be its MIME
  -- type is its file name in Content-Disposition.
  pub handle_get-swapped :
      (c : Cache) (cache : c.State) (key name text t : String) (s : f.State) (w : Writer Uploaded)
      → w.status ≡ none
      → f.row key s ≡ some (swapped name text t)
      → c.get key cache ≡ absent
      → f.select_file key s ≢ fault
      → let o = handle_get f hasher detect c key cache s w in
        (o.writer.status ≡ some 200)
        × (o.writer.chunks ≡ w.chunks ++ raw text ∷ [])
        × (lookup "Content-Type" o.writer.headers ≡ some name)
        × (lookup "Content-Disposition" o.writer.headers
            ≡ some (append "inline; filename=\"" (append (detect text) "\"")))
  unfolding handle_get get_file_by_key serve_file
  handle_get-swapped c cache key name text t s w blank there miss up =
      elim (Reply-cases (f.select_file key s)) [
        | inr (inr e) ↦ absurd (up e)
        | inr (inl e) ↦ absurd (cc (there, f.select_file-absent key s e))
        | inl (r, e) ↦
            let shown = append "inline; filename=\"" (append (detect text) "\"") in
            let same : r ≡ swapped name text t =
              some_inj (sym (f.select_file-value key r s e) ∙ there) in
            rw (miss, e, serve_file, same)
              (
                unfold send_row in rw blank refl,
                unfold send_row in refl,
                unfold send_row set_header in
                    rw
                      (lookup-assign "Content-Type" "Content-Type" name
                        (assign "Content-Disposition" shown w.headers))
                      refl,
                unfold send_row set_header in
                    rw
                      (
                        lookup-assign "Content-Type" "Content-Disposition" name
                            (assign "Content-Disposition" shown w.headers),
                        lookup-assign "Content-Disposition" "Content-Disposition" shown w.headers,
                      )
                      refl,
              )
      ]

  -- The delete hash of a receipt deletes the file: while its row is there and the database answers
  -- and deletes, GET /delete/{key}/{hash} is answered 204 and the row is gone.
  pub handle_delete-receipt :
      (c : Cache) (cache : c.State) (host key name text t : String) (s : f.State)
      (w : Writer Uploaded)
      → w.status ≡ none
      → f.row key s ≡ some (swapped name text t)
      → f.select_created_at key s ≢ fault
      → (f.delete_row key s).0 ≡ true
      → let r =
          (handle_delete f hasher detect c key (receipt host key t).delete_hash cache s w).0 in
        (r.0.status ≡ some 204) × (f.row key r.1 ≡ none)
  unfolding handle_delete get_upload_created_at delete_file_by_key delete_row_of confirm_delete
  handle_delete-receipt c cache host key name text t s w blank there up done =
      elim (Reply-cases (f.select_created_at key s)) [
        | inr (inr e) ↦ absurd (up e)
        | inr (inl e) ↦ absurd (cc (there, f.select_created_at-absent key s e))
        | inl (v, e) ↦
            let (r, there', stamp) = f.select_created_at-value key v s e in
            let same : v ≡ t =
              sym stamp ∙ ap (λ (x : FileRow). x.created_at) (some_inj (sym there' ∙ there)) in
            let own = (eq_iff (hasher (append key t)) (hasher (append key t))).1 refl in
            rw (e, delete_row_of, same, own, confirm_delete, done)
              (rw blank refl, f.delete_row-done key s done)
      ]
