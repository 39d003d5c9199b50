-- ===== src/Middleware/Auth.antt =====
-- api/middleware/authenticate.go. The JWT library and the users table are parameters; a call of a nil
-- function is `none`.
pub mod Laws
pub mod Jwt
mod Tests
use potat_api.Base.{
  ℕ, ◌≡◌, String, Bool, true, false, not, Option, none, some, List, [], ◌∷◌, Reply, value, absent,
  fault, strip_prefix, str_eq, if◌then◌else◌,
}
use potat_api.Base.Int.{ℤ}
use potat_api.Http.{Request, Writer, Handler, header}

abbrev pub or_whole : Option String → String → String
or_whole none s = s
or_whole (some rest) s = rest

-- `strings.Replace(s, p, "", 1)`: the text without the first place where `p` stands.
unfoldable pub remove_first : String → String → String
unfolding strip_prefix
remove_first p String.[] = or_whole (strip_prefix p String.[]) String.[]
remove_first p (String.◌∷◌ c s) =
    let later = remove_first p s in or_whole (strip_prefix p (String.◌∷◌ c s)) (String.◌∷◌ c later)

abbrev pub teapot : ℕ
teapot = 418

-- `Authenticator`: what it calls for a request that it refuses may be nil.
pub record Authenticator (J : Type 0) : Type 0 where
  pub secret : String
  pub unauthorized : Option (ℕ → Writer J → Writer J)

-- verifyDynamicAuth: whether the request is let through, and the user if so.
pub data Verdict (User : Type 0) : Type 0 where
  known : User → Verdict User
  refused : Verdict User

module _ {User : Type 0} where
  unfoldable pub found_user : Reply User → Verdict User
  found_user (value u) = known u
  found_user absent = refused
  found_user fault = refused

  -- After verifyJWT: `claims` is the user id of a valid token.
  unfoldable pub find_user : Bool → (ℤ → Reply User) → Option ℤ → Verdict User
  unfolding found_user
  find_user has_postgres user_by_id none = refused
  find_user has_postgres user_by_id (some id) =
      if has_postgres then found_user (user_by_id id) else refused

  unfoldable pub verify_dynamic_auth :
      Bool → (String → Option ℤ) → (ℤ → Reply User) → String → Verdict User
  unfolding find_user
  verify_dynamic_auth has_postgres verify_jwt user_by_id token =
      find_user has_postgres user_by_id (verify_jwt (remove_first "Bearer " token))

module _ {J S : Type 0} (a : Authenticator J) where
  abbrev pub call : Option (ℕ → Writer J → Writer J) → Writer J → S → Option (Writer J × S)
  call none w s = none
  call (some f) w s = some (f teapot w, s)

  unfoldable pub send_unauthorized : Writer J → S → Option (Writer J × S)
  send_unauthorized w s = call a.unauthorized w s

  -- SetStaticAuthMiddleware around `next`.
  unfoldable pub static_auth : Handler J S → Request → Writer J → S → Option (Writer J × S)
  unfolding header
  static_auth next req w s =
      if str_eq (remove_first "Bearer " (header "Authorization" req.headers)) a.secret
      then some (next req w s)
      else send_unauthorized w s

  -- By verifyDynamicAuth's verdict; `next` gets the user by the context.
  unfoldable pub admit :
      {User : Type 0}
      → Verdict User
      → (User → Handler J S)
      → Request
      → Writer J
      → S
      → Option (Writer J × S)
  admit (known u) next req w s = some (next u req w s)
  admit refused next req w s = send_unauthorized w s

  -- SetDynamicAuthMiddleware around `next`.
  unfoldable pub dynamic_auth :
      {User : Type 0}
      → Bool
      → (String → Option ℤ)
      → (ℤ → Reply User)
      → (User → Handler J S)
      → Request
      → Writer J
      → S
      → Option (Writer J × S)
  unfolding verify_dynamic_auth
  dynamic_auth has_postgres verify_jwt user_by_id next req w s =
      if str_eq (header "Authorization" req.headers) ""
      then send_unauthorized w s
      else admit
          (verify_dynamic_auth has_postgres verify_jwt user_by_id
            (header "Authorization" req.headers))
          next req w s
