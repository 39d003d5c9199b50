-- ===== src/Middleware/Auth/Jwt.antt =====
-- The JSON web tokens of api/middleware/authenticate.go. The library golang-jwt is the record
-- JwtLibrary. Times are whole seconds, as in a token.
pub mod Laws
mod Tests
use potat_api.Base.{
  ℕ, ◌+◌, ◌*◌, ◌≡◌, String, Bool, true, false, Option, none, some, ltb, if◌then◌else◌,
}
use potat_api.Base.Int.{ℤ}

-- `potatClaims`
pub record PotatClaims (Registered : Type 0) : Type 0 where
  pub registered : Registered
  pub user_id : ℤ

pub record JwtLibrary : Type 1 where
  pub Method : Type 0
  -- Whether it is a SigningMethodHMAC.
  pub is_hmac : Method → Bool
  pub hs256 : Method
  pub hs256-is_hmac : is_hmac hs256 ≡ true
  -- RegisteredClaims; those with only ExpiresAt set, and the checks of Validate at a time.
  pub Registered : Type 0
  pub expires : ℕ → Registered
  pub valid_at : ℕ → Registered → Bool
  pub valid_at-expires : (now t : ℕ) → valid_at now (expires t) ≡ ltb now t
  -- The token names the method, has the claims, and its signature is right for both and the key.
  pub IsSigned : Method → PotatClaims Registered → String → String → Type 0
  -- What a token has does not depend on who reads it.
  pub IsSigned-claims :
      (m m' : Method) (c c' : PotatClaims Registered) (key key' token : String)
      → IsSigned m c key token
      → IsSigned m' c' key' token
      → c ≡ c'
  -- SignedString of a new token; an error is `none`.
  pub sign : Method → PotatClaims Registered → String → Option String
  pub sign-IsSigned :
      (m : Method) (c : PotatClaims Registered) (key token : String)
      → sign m c key ≡ some token
      → IsSigned m c key token
  -- ParseWithClaims by a function that gives the key for the method that the token names: an error
  -- is `none`; else the claims, and the field Valid.
  pub parse : (Method → Option String) → ℕ → String → Option (PotatClaims Registered × Bool)
  pub parse-IsSigned :
      (key_of : Method → Option String) (now : ℕ) (token : String) (c : PotatClaims Registered)
      (ok : Bool)
      → parse key_of now token ≡ some (c, ok)
      → (m : Method) × (key : String) × (key_of m ≡ some key)
        × IsSigned m c key token
        × (valid_at now c.registered ≡ true)
  pub parse-accepts :
      (key_of : Method → Option String) (now : ℕ) (m : Method) (c : PotatClaims Registered)
      (key token : String)
      → IsSigned m c key token
      → key_of m ≡ some key
      → valid_at now c.registered ≡ true
      → parse key_of now token ≡ some (c, true)

module _ (lib : JwtLibrary) (secret : String) where
  abbrev pub Claims : Type 0
  Claims = PotatClaims lib.Registered

  -- The key is given out only for a method of HMAC.
  unfoldable pub jwt_key_func : lib.Method → Option String
  jwt_key_func m = if lib.is_hmac m then some secret else none

  abbrev pub when_valid : Option (Claims × Bool) → Option Claims
  when_valid none = none
  when_valid (some (c, ok)) = if ok then some c else none

  unfoldable pub verify_jwt : ℕ → String → Option Claims
  verify_jwt now token = when_valid (lib.parse jwt_key_func now token)

  abbrev pub lifetime : ℕ
  lifetime = 183 * 24 * 3600

  -- For a user, at a time.
  unfoldable pub create_jwt : ℕ → ℤ → Option String
  create_jwt now user_id =
      lib.sign lib.hs256 (record { registered = lib.expires (now + lifetime); user_id = user_id })
        secret

  -- verifyJWT as verifyDynamicAuth uses it: the user id of the claims.
  abbrev pub id_of : Option Claims → Option ℤ
  id_of none = none
  id_of (some c) = some c.user_id

  abbrev pub verified_id : ℕ → String → Option ℤ
  verified_id now token = id_of (verify_jwt now token)
