-- ===== src/Uploader/Delete.antt =====
-- Who can delete a file: handleDelete of uploader/uploader.go.
use Prim.Native.String.{◌++◌}
use potat_api.Base.{
  ◌≡◌, ◌≢◌, refl, ◌⊎◌, inl, inr, String, Bool, true, false, none, some, Reply, value, absent, fault,
  Bool-cases, str_eq, eq_iff,
}
use potat_api.Http.{Writer, write_header, http_error}
use potat_api.Services.{Cache}
use potat_api.Uploader.{Files, FileRow, Uploaded, get_upload_created_at, delete_file_by_key}
use potat_api.Uploader.Handle.{confirm_delete, delete_row_of, handle_delete}

module _ (f : Files) (hasher detect : String → String) where
  -- The hash of a row: that of its key and the time it was stored.
  abbrev pub IsHashOf : String → String → f.State → Type 0
  IsHashOf hash key s =
      (r : FileRow) × (f.row key s ≡ some r) × (hash ≡ hasher (key ++ r.created_at))

  -- The request had the hash and the row is gone, with the status 204; or the row is as it was, and
  -- the status is 404, or 401 where the hash is not the row's. No other row changes.
  abbrev pub Deletes : String → String → f.State → Writer Uploaded × f.State → Type 0
  Deletes key hash s (w', s') =
      ((IsHashOf hash key s × (w'.status ≡ some 204) × (f.row key s' ≡ none))
        ⊎ (((w'.status ≡ some 404) ⊎ (w'.status ≡ some 401)) × (f.row key s' ≡ f.row key s)))
      × ((j : String) → key ≢ j → f.row j s' ≡ f.row j s)

  confirm_delete-Deletes :
      (key hash : String) (s s' : f.State) (done : Bool) (w : Writer Uploaded)
      → w.status ≡ none
      → IsHashOf hash key s
      → (done ≡ true → f.row key s' ≡ none)
      → (done ≡ false → f.row key s' ≡ f.row key s)
      → ((j : String) → key ≢ j → f.row j s' ≡ f.row j s)
      → Deletes key hash s (confirm_delete f hasher detect (done, s') w)
  unfolding confirm_delete
  confirm_delete-Deletes key hash s s' true w blank proof gone kept others =
      (inl (proof, unfold write_header in rw blank refl, gone refl), others)
  confirm_delete-Deletes key hash s s' false w blank proof gone kept others =
      (inr (inl (unfold http_error in rw blank refl), kept refl), others)

  delete_row_of-Deletes :
      (key hash : String) (created : Reply String) (s : f.State) (w : Writer Uploaded)
      → w.status ≡ none
      → ((t : String)
          → created ≡ value t
          → (r : FileRow) × (f.row key s ≡ some r) × (r.created_at ≡ t))
      → Deletes key hash s (delete_row_of f hasher detect key hash created s w)
  unfolding delete_row_of
  delete_row_of-Deletes key hash absent s w blank known =
      (inr (inl (unfold http_error in rw blank refl), refl), λ j apart. refl)
  delete_row_of-Deletes key hash fault s w blank known =
      (inr (inl (unfold http_error in rw blank refl), refl), λ j apart. refl)
  delete_row_of-Deletes key hash (value t) s w blank known =
      elim (Bool-cases (str_eq hash (hasher (key ++ t)))) [
        | inr differ ↦
            rw differ (inr (inr (unfold http_error in rw blank refl), refl), λ j apart. refl)
        | inl same ↦
            let (r, there, stamp) = known t refl in
            rw same (
              unfold delete_file_by_key in
              confirm_delete-Deletes key hash s (f.delete_row key s).1 (f.delete_row key s).0 w
                blank (r, there, rw stamp ((eq_iff hash (hasher (key ++ t))).0 same))
                (f.delete_row-done key s) (f.delete_row-failed key key s)
                (λ j apart. f.delete_row-other key j s apart))
      ]

  -- A file goes only by a request that has the hash of its key and of the time it was stored, which
  -- is answered 204; any other request is answered 401 or 404, or failed in the database, and leaves
  -- the row; and no request touches another file's row. The cached copy of the key goes first, or
  -- stays if the cache fails.
  pub handle_delete-Deletes :
      (c : Cache) (key hash : String) (cache : c.State) (s : f.State) (w : Writer Uploaded)
      → w.status ≡ none
      → Deletes key hash s (handle_delete f hasher detect c key hash cache s w).0
        × ((c.contents key (handle_delete f hasher detect c key hash cache s w).1 ≡ none)
            ⊎ (c.contents key (handle_delete f hasher detect c key hash cache s w).1
                ≡ c.contents key cache))
  unfolding handle_delete get_upload_created_at
  handle_delete-Deletes c key hash cache s w blank = (
    delete_row_of-Deletes key hash (f.select_created_at key s) s w blank
        (λ t h. f.select_created_at-value key t s h),
    c.del-removes key cache,
  )
