-- ===== src/Seventv.antt =====
-- BatchLoadStvData of common/utils/requests.go. Its request is a parameter: none where makeRequest
-- fails or the answer does not decode.
mod Tests
use Prim.Native.String.{◌++◌ as append}
use potat_api.Base.{String, Option, none, some, List, [], ◌∷◌, map}
use potat_api.Durations.{join}

-- `StvUser`
pub record StvUser : Type 0 where
  pub id : String
  pub avatar_url : String

-- `stvResponse`, with the messages of its errors, and its data in the order of the walk.
pub record StvResponse : Type 0 where
  pub users : List (String × StvUser)
  pub errors : List String

unfoldable pub query_part : String → String
query_part id =
    append "u" (
      append id (append ":userByConnection(platform:TWITCH id:\"" (append id "\"){id avatar_url}")))

unfoldable pub stv_query : List String → String
unfolding query_part join
stv_query ids = append "{" (append (join (map query_part ids)) "}")

-- After the answer is decoded.
unfoldable pub read_users : Option StvResponse → Option (List StvUser)
read_users none = none
read_users (some res) = elim res.errors [
  | e ∷ es ↦ none
  | [] ↦ some (map (λ entry. entry.1) res.users)
]

-- `request` sends the query.
unfoldable pub batch_load_stv_data :
    (String → Option StvResponse) → List String → Option (List StvUser)
unfolding stv_query read_users
batch_load_stv_data request ids = read_users (request (stv_query ids))
