-- ===== src/Uploader.antt =====
-- uploader/uploader.go and its queries in common/db/postgres.go. The table file_store is a
-- parameter: `Files` holds its four statements, with what PostgreSQL documents of them for a table
-- whose key is PRIMARY KEY. A time is what its String method prints.
pub mod Handle
pub mod Delete
pub mod Upload
pub mod Server
pub mod Service
pub mod Stale
mod Memory
mod Tests
use potat_api.Base.{
  ◌≡◌, ◌≢◌, String, Bool, true, false, Option, none, some, List, [], ◌∷◌, Reply, value, absent,
  fault,
}
use potat_api.Http.{Writer}

pub record FileRow : Type 0 where
  pub file : String
  pub mime_type : String
  pub file_name : Option String
  pub created_at : String

pub record Files : Type 1 where
  pub State : Type 0
  -- INSERT … RETURNING created_at, of a file, a file name, a MIME type and a key.
  pub insert_row : String → String → String → String → State → Reply String × State
  pub select_file : String → State → Reply FileRow
  pub select_created_at : String → State → Reply String
  pub delete_row : String → State → Bool × State
  pub row : String → State → Option FileRow
  -- The row is added with the time that is answered, or nothing changes.
  pub insert_row-done :
      (file name mime k t : String) (s : State)
      → (insert_row file name mime k s).0 ≡ value t
      → (row k s ≡ none)
        × (row k (insert_row file name mime k s).1
            ≡ some
                (record { file = file; mime_type = mime; file_name = some name; created_at = t }))
  pub insert_row-failed :
      (file name mime k j : String) (s : State)
      → ((t : String) → (insert_row file name mime k s).0 ≢ value t)
      → row j (insert_row file name mime k s).1 ≡ row j s
  pub insert_row-other :
      (file name mime k j : String) (s : State)
      → k ≢ j
      → row j (insert_row file name mime k s).1 ≡ row j s
  pub select_file-value :
      (k : String) (r : FileRow) (s : State) → select_file k s ≡ value r → row k s ≡ some r
  pub select_file-absent : (k : String) (s : State) → select_file k s ≡ absent → row k s ≡ none
  pub select_created_at-value :
      (k t : String) (s : State)
      → select_created_at k s ≡ value t
      → (r : FileRow) × (row k s ≡ some r) × (r.created_at ≡ t)
  pub select_created_at-absent :
      (k : String) (s : State) → select_created_at k s ≡ absent → row k s ≡ none
  -- DELETE removes the row, or reports an error and changes nothing.
  pub delete_row-done :
      (k : String) (s : State) → (delete_row k s).0 ≡ true → row k (delete_row k s).1 ≡ none
  pub delete_row-failed :
      (k j : String) (s : State) → (delete_row k s).0 ≡ false → row j (delete_row k s).1 ≡ row j s
  pub delete_row-other : (k j : String) (s : State) → k ≢ j → row j (delete_row k s).1 ≡ row j s

-- The answer to an upload: the key, the URL and the delete hash.
pub record Uploaded : Type 0 where
  pub key : String
  pub url : String
  pub delete_hash : String

-- What a handler did: its writer, the entries that its goroutines will cache, and the table.
pub record Outcome (S : Type 0) : Type 0 where
  pub writer : Writer Uploaded
  pub spawned : List (String × String)
  pub rows : S

module _ (f : Files) where
  unfoldable pub new_upload : String → String → String → String → f.State → Reply String × f.State
  new_upload key file name mime s = f.insert_row file name mime key s

  unfoldable pub get_file_by_key : String → f.State → Reply FileRow
  get_file_by_key key s = f.select_file key s

  unfoldable pub delete_file_by_key : String → f.State → Bool × f.State
  delete_file_by_key key s = f.delete_row key s

  unfoldable pub get_upload_created_at : String → f.State → Reply String
  get_upload_created_at key s = f.select_created_at key s
