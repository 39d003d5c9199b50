-- ===== src/Redirects/Create.antt =====
-- createRedirect and generateUniqueKey of api/routes/post/redirects.go. The keys that RandomString
-- draws are a list, an error among them is `none`; a list that runs out is a loop that goes on.
-- The request's context has the database client.
pub mod Laws
use Prim.Native.String.{◌++◌}
use potat_api.Base.{
  ℕ, String, Bool, true, false, not, ◌&&◌, Option, none, some, List, [], ◌∷◌, Reply, value, absent,
  fault, str_eq, if◌then◌else◌,
}
use potat_api.Http.{Writer, raw, http_error, write}
use potat_api.Redirects.{Table, get_key_by_redirect, redirect_exists, new_redirect}
use potat_api.Redirects.Clean.{has_prefix}

-- The URL with a scheme.
unfoldable pub with_scheme : String → String
unfolding has_prefix
with_scheme url =
    if not (has_prefix url "http://") && not (has_prefix url "https://")
    then "https://" ++ url
    else url

-- How the loop of generateUniqueKey ends: with a key, with an error, or not within these draws.
pub data Draw : Type 0 where
  key : String → Draw
  failed : Draw
  looping : Draw

-- `err == nil && key != ""`
unfoldable pub known_key : Reply String → Option String
known_key (value k) = if str_eq k "" then none else some k
known_key absent = none
known_key fault = none

-- The answer to the client: the short URL.
unfoldable pub short_url : String → String → String
short_url host k = "https://" ++ host ++ "/" ++ k

module _ (t : Table) where
  unfoldable pub generate_unique_key : List (Option String) → t.State → Draw
  unfolding redirect_exists
  generate_unique_key [] s = looping
  generate_unique_key (none ∷ draws) s = failed
  generate_unique_key (some k ∷ draws) s =
      let again = generate_unique_key draws s in if redirect_exists t k s then key k else again

  module _ {J : Type 0} where
    -- After the search for an old key: `none` while the loop still draws.
    unfoldable pub store_new :
        String → String → Draw → t.State → Writer J → Option (Writer J × t.State)
    unfolding new_redirect
    store_new host url (key k) s w =
        let (done, s') = new_redirect t k url s in
        some (
          if done
              then write (raw (short_url host k)) w
              else http_error "Internal Server Error" 500 w,
          s',
        )
    store_new host url failed s w = some (http_error "Internal Server Error" 500 w, s)
    store_new host url looping s w = none

    -- `input` is the decoded body, `none` if it is no JSON object of that shape.
    unfoldable pub create_redirect :
        String
        → Option String
        → List (Option String)
        → t.State
        → Writer J
        → Option (Writer J × t.State)
    unfolding get_key_by_redirect
    create_redirect host none draws s w = some (http_error "Bad Request" 400 w, s)
    create_redirect host (some input) draws s w =
        let url = with_scheme input in
        elim (known_key (get_key_by_redirect t url s)) [
          | some k ↦ some (write (raw (short_url host k)) w, s)
          | none ↦ store_new host url (generate_unique_key draws s) s w
        ]
