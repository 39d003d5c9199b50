-- ===== src/Users/Route.antt =====
-- getUsers of api/routes/get/user.go. The users are loaded by one
-- goroutine each and come in any order; an index out of range is `none`.
pub mod Laws
use Prim.Native.String.{◌++◌ as append}
use Prim.Native.Char.{code}
use potat_api.Base.{
  ℕ, String, Bool, true, false, Option, none, some, List, [], ◌∷◌, length, ltb, ◌==◌, str_eq,
  if◌then◌else◌,
}
use potat_api.Base.Decimal.{decimal}
use potat_api.Http.{Writer, json}
use potat_api.Api.{generic_response}
use potat_api.Users.Load.{UserInfo}

-- `UsersResponse`: the data, and the message of the one error, if there is any.
pub record Response (User Channel : Type 0) : Type 0 where
  pub infos : List (UserInfo User Channel)
  pub error : Option String

abbrev pub cons_head : String → List String → List String
cons_head s [] = s ∷ []
cons_head s (t ∷ ts) = append s t ∷ ts

-- `strings.Split(s, ",")`
unfoldable pub split : String → List String
split String.[] = String.[] ∷ []
split (String.◌∷◌ c s) =
    let rest = split s in
    if code c == b',' then String.[] ∷ rest else cons_head (String.◌∷◌ c String.[]) rest

unfoldable pub too_many : ℕ → String
too_many n = append "Too many users provided. Expected 1-25, found " (decimal n)

module _ {User Channel : Type 0} where
  abbrev pub fail :
      String → String → Writer (Response User Channel) → Writer (Response User Channel)
  fail message took w = generic_response 400 (record { infos = []; error = some message }) took w

  -- By the user of the first info.
  unfoldable pub respond :
      Option User
      → List (UserInfo User Channel)
      → String
      → Writer (Response User Channel)
      → Writer (Response User Channel)
  unfolding generic_response
  respond none infos took w =
      generic_response 404 (record { infos = infos; error = some "User not found" }) took w
  respond (some u) infos took w =
      generic_response 200 (record { infos = infos; error = none }) took w

  -- `dataArray[0].User == nil`
  unfoldable pub respond_first :
      List (UserInfo User Channel)
      → String
      → Writer (Response User Channel)
      → Option (Writer (Response User Channel))
  respond_first [] took w = none
  respond_first (first ∷ infos) took w = some (respond first.user (first ∷ infos) took w)

  -- `arrived` is what came through dataChan.
  unfoldable pub get_users :
      String
      → List (UserInfo User Channel)
      → String
      → Writer (Response User Channel)
      → Option (Writer (Response User Channel))
  unfolding split
  get_users word arrived took w =
      if str_eq word ""
      then some (fail "No username provided" took w)
      else if ltb 25 (length (split word))
      then some (fail (too_many (length (split word))) took w)
      else respond_first arrived took w
