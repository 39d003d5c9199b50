-- ===== src/Haste.antt =====
-- haste/haste.go and its two queries in common/db/postgres.go. The table haste is a parameter:
-- `Pastes` holds its two statements, with what PostgreSQL documents of them for a unique key; the
-- text of a row is what zstd_decompress gives back of its content. A text is its bytes; where they are
-- not UTF-8, convert_from makes the first statement fail.
pub mod Get
pub mod Post
pub mod Static
pub mod Service
mod Memory
mod Tests
use potat_api.Base.{
  ◌≡◌, ◌≢◌, String, Bool, true, false, Option, none, some, List, [], ◌∷◌, Reply, value, absent,
  fault,
}
use potat_api.Http.{Writer}

pub record Pastes : Type 1 where
  pub State : Type 0
  -- UPDATE … RETURNING: it counts the access and answers the text.
  pub update : String → State → Reply String × State
  -- INSERT … ON CONFLICT (key) DO NOTHING, of a key, a text and a source.
  pub insert_row : String → String → String → State → Bool × State
  -- The text of the row with a key.
  pub row : String → State → Option String
  pub update-value : (k v : String) (s : State) → (update k s).0 ≡ value v → row k s ≡ some v
  pub update-absent : (k : String) (s : State) → (update k s).0 ≡ absent → row k s ≡ none
  pub is_utf8 : String → Bool
  pub update-garbled :
      (k v : String) (s : State) → row k s ≡ some v → is_utf8 v ≡ false → (update k s).0 ≡ fault
  pub update-row : (k j : String) (s : State) → row j (update k s).1 ≡ row j s
  -- The row that is there stays; one that is not is added, unless an error is reported.
  pub insert_row-old :
      (k v w u : String) (s : State) → row k s ≡ some u → row k (insert_row k v w s).1 ≡ some u
  pub insert_row-done :
      (k v w : String) (s : State)
      → (insert_row k v w s).0 ≡ true
      → row k s ≡ none
      → row k (insert_row k v w s).1 ≡ some v
  pub insert_row-failed :
      (k j v w : String) (s : State)
      → (insert_row k v w s).0 ≡ false
      → row j (insert_row k v w s).1 ≡ row j s
  pub insert_row-other :
      (k j v w : String) (s : State) → k ≢ j → row j (insert_row k v w s).1 ≡ row j s

-- The JSON that the handlers send: {"key", "data"} and {"key"}.
pub data Answer : Type 0 where
  document : String → String → Answer
  created : String → Answer

-- A goroutine that fills the cache; unless it is detached, it has the request's context, which is
-- cancelled when the handler returns.
pub record Task : Type 0 where
  pub key : String
  pub text : String
  pub detached : Bool

-- What a handler did: its writer, its goroutines, and the table.
pub record Outcome (S : Type 0) : Type 0 where
  pub writer : Writer Answer
  pub spawned : List Task
  pub rows : S

-- The table stores a document under `encode key`, the MD5 sum of its key in hexadecimal.
module _ (p : Pastes) (encode : String → String) where
  unfoldable pub get_haste : String → p.State → Reply String × p.State
  get_haste key s = p.update (encode key) s

  unfoldable pub new_haste : String → String → String → p.State → Bool × p.State
  new_haste key text source s = p.insert_row (encode key) text source s

  -- The document of a key.
  abbrev pub stored : String → p.State → Option String
  stored key s = p.row (encode key) s

-- The documents are the same.
abbrev pub Keeps : (p : Pastes) → p.State → p.State → Type 0
Keeps p s s' = (k : String) → p.row k s' ≡ p.row k s
