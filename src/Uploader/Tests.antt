-- ===== src/Uploader/Tests.antt =====
-- The upload service against a table and a cache in memory; the sum is the text itself, and every
-- file is found to be a PNG image.
use potat_api.Base.{◌≡◌, ◌≢◌, refl, ◌⊎◌, String, true, none, some, [], ◌∷◌, fault}
use potat_api.Http.{new_writer, raw}
use potat_api.Services.Memory.{memory_cache, no_entries}
use potat_api.Uploader.Memory.{Rows, memory_files, no_rows, poke}
use potat_api.Uploader.{FileRow, get_upload_created_at, delete_file_by_key}
use potat_api.Uploader.Stale.{handle_get-deleted}
use potat_api.Uploader.Handle.{
  Form, hash_generator, handle_upload, handle_delete, handle_get, delete_row_of, confirm_delete,
  set_redis,
}
use potat_api.Uploader.Delete.{Deletes, handle_delete-Deletes}
use potat_api.Uploader.Upload.{swapped, receipt, Stores, Fails, handle_upload-Stores}

abbrev hasher : String → String
hasher key = key

abbrev detect : String → String
detect text = "image/png"

abbrev form : Form
form = record { form_ok = true; file = some ("cat.png", some "PNG…"); host = "i.potat.app" }

abbrev rows : Rows
rows = poke "abc" (some (swapped memory_files hasher detect "cat.png" "PNG…" "t0")) no_rows

hash_generator_run : hash_generator hasher "secret" "key" ≡ "keysecret"
unfolding hash_generator
hash_generator_run = refl

handle_upload-Stores_example :
    ((key : String) × (name : String) × (text : String) × (form.file ≡ some (name, some text))
      × (some "abc" ≡ some key)
      × Stores memory_files hasher detect "i.potat.app" key name text no_rows new_writer
          (handle_upload memory_files hasher detect form (some "abc") no_rows new_writer))
    ⊎ Fails memory_files hasher detect no_rows
        (handle_upload memory_files hasher detect form (some "abc") no_rows new_writer)
handle_upload-Stores_example =
    handle_upload-Stores memory_files hasher detect form (some "abc") no_rows new_writer refl

up_file : memory_files.select_file "abc" rows ≢ fault
up_file h = cc

up_time : memory_files.select_created_at "abc" rows ≢ fault
up_time h = cc

handle_delete-Deletes_example :
    Deletes memory_files hasher detect "abc" "guess" rows
      (handle_delete memory_files hasher detect memory_cache "abc" "guess" no_entries rows
        new_writer).0
    × ((memory_cache.contents "abc"
            (handle_delete memory_files hasher detect memory_cache "abc" "guess" no_entries rows
              new_writer).1
          ≡ none)
        ⊎ (memory_cache.contents "abc"
              (handle_delete memory_files hasher detect memory_cache "abc" "guess" no_entries rows
                new_writer).1
            ≡ memory_cache.contents "abc" no_entries))
handle_delete-Deletes_example =
    handle_delete-Deletes memory_files hasher detect memory_cache "abc" "guess" no_entries rows
      new_writer refl

abbrev cat : FileRow
cat = swapped memory_files hasher detect "cat.png" "PNG…" "t0"

abbrev cat_hash : String
cat_hash = (receipt memory_files hasher detect "i.potat.app" "abc" "t0").delete_hash

cat_deleted :
    (handle_delete memory_files hasher detect memory_cache "abc" cat_hash no_entries rows
      new_writer).0.0.status
    ≡ some 204
unfolding handle_delete delete_row_of confirm_delete get_upload_created_at delete_file_by_key
cat_deleted = refl

still_up :
    memory_cache.get "abc" (
      set_redis memory_files hasher detect memory_cache "abc" cat.file
        (handle_delete memory_files hasher detect memory_cache "abc" cat_hash no_entries rows
          new_writer).1)
    ≢ fault
unfolding set_redis handle_delete
still_up h = cc

handle_get-deleted_example :
    let d =
      handle_delete memory_files hasher detect memory_cache "abc" cat_hash no_entries rows
        new_writer in
    let o =
      handle_get memory_files hasher detect memory_cache "abc"
        (set_redis memory_files hasher detect memory_cache "abc" cat.file d.1)
        d.0.1
        new_writer in
    ((handle_get memory_files hasher detect memory_cache "abc" no_entries rows new_writer).spawned
      ≡ ("abc", cat.file) ∷ [])
    × (memory_files.row "abc" d.0.1 ≡ none)
    × (o.writer.status ≡ some 200)
    × (o.writer.chunks ≡ raw cat.file ∷ [])
handle_get-deleted_example =
    handle_get-deleted memory_files hasher detect memory_cache "abc" cat_hash cat no_entries rows
      refl refl cat_deleted refl still_up
