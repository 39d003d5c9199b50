-- ===== src/Uploader/Stale.antt =====
-- A file that is read while it is deleted: the goroutine of handleGet that fills the cache may run
-- after handleDelete has emptied it.
use potat_api.Base.{
  ◌≡◌, ◌≢◌, refl, inl, inr, String, true, some, none, [], ◌∷◌, value, absent, fault, Reply-cases,
  some_inj, sym, ◌∙◌, arith,
}
use potat_api.Http.{new_writer, raw}
use potat_api.Services.{Cache}
use potat_api.Uploader.{Files, FileRow, get_file_by_key}
use potat_api.Uploader.Handle.{handle_get, handle_delete, serve_file, send_row, set_redis}
use potat_api.Uploader.Delete.{handle_delete-Deletes}

module _ (f : Files) (hasher detect : String → String) (c : Cache) where
  -- A file that was filled into the cache is served from it, whatever the table has.
  serve_file-cached :
      (key text : String) (cache : c.State) (s : f.State)
      → (c.set_ex key text 1800 cache).0 ≡ true
      → c.get key (set_redis f hasher detect c key text cache) ≢ fault
      → let o =
          handle_get f hasher detect c key
            (set_redis f hasher detect c key text cache)
            s
            new_writer in
        (o.writer.status ≡ some 200) × (o.writer.chunks ≡ raw text ∷ [])
  unfolding handle_get serve_file set_redis
  serve_file-cached key text cache s done up =
      let after = (c.set_ex key text 1800 cache).1 in
      let there = c.set_ex-done key text 1800 cache done in
      elim (Reply-cases (c.get key after)) [
        | inr (inr e) ↦ absurd (up e)
        | inr (inl e) ↦ absurd (cc (there, c.get-absent key after e))
        | inl (v, e) ↦
            let same : v ≡ text = some_inj (sym (c.get-value key v after e) ∙ there) in
            rw (e, same) (refl, refl)
      ]

  -- A read that misses the cache and finds a file leaves a goroutine behind. If the file is then
  -- deleted by its hash with the answer 204, and the goroutine runs after that and Redis stores what
  -- it sets, the next read is answered 200 with the file, although the table does not have it.
  pub handle_get-deleted :
      (key hash : String) (r : FileRow) (cache : c.State) (s : f.State)
      → c.get key cache ≡ absent
      → f.select_file key s ≡ value r
      → (handle_delete f hasher detect c key hash cache s new_writer).0.0.status ≡ some 204
      → (c.set_ex key r.file 1800 (handle_delete f hasher detect c key hash cache s new_writer).1).0
        ≡ true
      → c.get key (
          set_redis f hasher detect c key r.file
            (handle_delete f hasher detect c key hash cache s new_writer).1)
        ≢ fault
      → let d = handle_delete f hasher detect c key hash cache s new_writer in
        let o =
          handle_get f hasher detect c key
            (set_redis f hasher detect c key r.file d.1)
            d.0.1
            new_writer in
        ((handle_get f hasher detect c key cache s new_writer).spawned ≡ (key, r.file) ∷ [])
        × (f.row key d.0.1 ≡ none)
        × (o.writer.status ≡ some 200)
        × (o.writer.chunks ≡ raw r.file ∷ [])
  handle_get-deleted key hash r cache s miss there gone done up =
      let d = handle_delete f hasher detect c key hash cache s new_writer in
      let (good, shown) = serve_file-cached key r.file d.1 d.0.1 done up in
      (
        unfold handle_get serve_file send_row get_file_by_key in rw (miss, there) refl,
        elim (handle_delete-Deletes f hasher detect c key hash cache s new_writer refl).0.0 [
          | inl (_, _, lost) ↦ lost
          | inr (code, _) ↦ absurd (ground arith)
        ],
        good,
        shown,
      )
