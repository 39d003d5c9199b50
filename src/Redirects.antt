-- ===== src/Redirects.antt =====
-- redirects/redirects.go, api/routes/post/redirects.go and their queries in common/db/postgres.go.
-- The table url_redirects is a parameter: `Table` holds the four statements, with what PostgreSQL
-- documents of them for a table whose key is PRIMARY KEY.
pub mod Clean
pub mod Get
pub mod Create
pub mod Round
pub mod Server
pub mod Memory
mod Tests
use potat_api.Base.{
  ℕ, ◌≡◌, ◌≢◌, ◌↔◌, String, Bool, true, false, Option, none, some, Reply, value, absent, fault,
}

pub record Table : Type 1 where
  pub State : Type 0
  pub select_url : String → State → Reply String
  pub select_key : String → State → Reply String
  pub select_exists : String → State → Reply Bool
  pub insert_row : String → String → State → Bool × State
  -- The url of the row with a key.
  pub row : String → State → Option String
  pub select_url-value : (k u : String) (s : State) → select_url k s ≡ value u → row k s ≡ some u
  pub select_url-absent : (k : String) (s : State) → select_url k s ≡ absent → row k s ≡ none
  pub select_key-value : (u k : String) (s : State) → select_key u s ≡ value k → row k s ≡ some u
  pub select_exists-value :
      (k : String) (s : State) (b : Bool)
      → select_exists k s ≡ value b
      → (b ≡ true) ↔ (row k s ≢ none)
  -- INSERT adds the row and reports success, or reports an error and changes nothing; a key that is
  -- taken is an error.
  pub insert_row-done :
      (k u : String) (s : State)
      → (insert_row k u s).0 ≡ true
      → (row k s ≡ none) × (row k (insert_row k u s).1 ≡ some u)
  pub insert_row-failed :
      (k j u : String) (s : State)
      → (insert_row k u s).0 ≡ false
      → row j (insert_row k u s).1 ≡ row j s
  pub insert_row-other : (k j u : String) (s : State) → k ≢ j → row j (insert_row k u s).1 ≡ row j s

module _ (t : Table) where
  -- GetRedirectByKey and GetKeyByRedirect hand the answer on; any scan error of RedirectExists is
  -- "no".
  unfoldable pub get_redirect_by_key : String → t.State → Reply String
  get_redirect_by_key key s = t.select_url key s

  unfoldable pub get_key_by_redirect : String → t.State → Reply String
  get_key_by_redirect url s = t.select_key url s

  unfoldable pub redirect_exists : String → t.State → Bool
  redirect_exists key s = elim (t.select_exists key s) [ value b ↦ b | _ ↦ false ]

  unfoldable pub new_redirect : String → String → t.State → Bool × t.State
  new_redirect key url s = t.insert_row key url s
