-- ===== src/Middleware/Auth/Jwt/Tests.antt =====
-- Tokens of a library that signs one set of claims, with the key itself as the token.
use Prim.Native.String.{◌++◌}
use potat_api.Base.{
  ℕ, ◌==◌, ◌≡◌, ◌↔◌, refl, sym, ap, ◌∙◌, String, Bool, true, false, Option, none, some, [], ◌∷◌,
  Reply, value, some_inj, ltb, ◌&&◌, str_eq, eq_iff, Bool-cases, inl, inr, if◌then◌else◌, lookup,
  arith,
}
use potat_api.Base.Int.{ℤ, pos, negsuc}
use potat_api.Http.{Request, Handler, new_writer, header, write_header}
use potat_api.Middleware.Auth.{Authenticator, dynamic_auth, send_unauthorized}
use potat_api.Middleware.Auth.Jwt.{JwtLibrary, PotatClaims, verify_jwt, verified_id, create_jwt}
use potat_api.Middleware.Auth.Jwt.Laws.{IsValid, verify_jwt_iff, dynamic_auth-create_jwt}

-- What CreateJWT puts into a token for user 7 at second 0.
abbrev claims : PotatClaims ℕ
claims = record { registered = 15811200; user_id = pos 7 }

abbrev IsPlain : Bool → PotatClaims ℕ → String → String → Type 0
IsPlain m c key token = (m ≡ true) × (c ≡ claims) × (key ≡ token)

abbrev is_seven : ℤ → Bool
is_seven (pos n) = n == 7
is_seven _ = false

-- A method is whether it is HS256.
abbrev plain_sign : Bool → PotatClaims ℕ → String → Option String
plain_sign m c key =
    if m && (c.registered == 15811200 && is_seven c.user_id) then some key else none

abbrev accept : ℕ → String → Option String → Option (PotatClaims ℕ × Bool)
accept now token none = none
accept now token (some key) =
    if str_eq key token && ltb now 15811200 then some (claims, true) else none

is_seven_sound : (i : ℤ) → is_seven i ≡ true → i ≡ pos 7
is_seven_sound (pos n) h = let e : n ≡ 7 = ground arith in ap pos e
is_seven_sound (negsuc n) h = absurd (cc)

plain-claims :
    (n : ℕ) (i : ℤ)
    → (n == 15811200 && is_seven i) ≡ true
    → Path (PotatClaims ℕ) (record { registered = n; user_id = i }) claims
plain-claims n i h = elim (Bool-cases (n == 15811200)) [
  | inl same ↦
      let e : n ≡ 15811200 = ground arith in
      let seven : is_seven i ≡ true = rw same at h in rw (e, is_seven_sound i seven) refl
  | inr other ↦ absurd (cc (rw other at h))
]

plain_sign-IsPlain :
    (m : Bool) (c : PotatClaims ℕ) (key token : String)
    → plain_sign m c key ≡ some token
    → IsPlain m c key token
plain_sign-IsPlain false c key token h = absurd (cc)
plain_sign-IsPlain true c key token h =
    elim (Bool-cases (c.registered == 15811200 && is_seven c.user_id)) [
      | inl fits ↦ (refl, plain-claims c.registered c.user_id fits, some_inj (rw fits at h))
      | inr other ↦ absurd (cc (rw other at h))
    ]

accept-IsPlain :
    (now : ℕ) (token : String) (given : Option String) (c : PotatClaims ℕ) (ok : Bool)
    → accept now token given ≡ some (c, ok)
    → (key : String) × (given ≡ some key) × IsPlain true c key token × (ltb now c.registered ≡ true)
accept-IsPlain now token none c ok h = absurd (cc)
accept-IsPlain now token (some key) c ok h =
    elim (Bool-cases (str_eq key token && ltb now 15811200)) [
      | inl both ↦
          let pair : (claims, true) ≡ (c, ok) = some_inj (rw both at h) in
          let same : claims ≡ c = ap (λ x. x.0) pair in
          (
            key,
            refl,
            (refl, sym same, (eq_iff key token).0 (ground arith)),
            rw (← same) (ground arith),
          )
      | inr not_both ↦ absurd (cc (rw not_both at h))
    ]

accept_complete :
    (now : ℕ) (c : PotatClaims ℕ) (key token : String) (given : Option String)
    → c ≡ claims
    → key ≡ token
    → given ≡ some key
    → ltb now c.registered ≡ true
    → accept now token given ≡ some (c, true)
accept_complete now c key token given same own known early =
    let e : str_eq key token ≡ true = (eq_iff key token).1 own in
    let fresh : ltb now 15811200 ≡ true = rw same at early in rw (known, e, fresh, same) refl

abbrev library : JwtLibrary
library = record {
  Method = Bool;
  is_hmac = λ m. m;
  hs256 = true;
  hs256-is_hmac = refl;
  Registered = ℕ;
  expires = λ t. t;
  valid_at = λ now t. ltb now t;
  valid_at-expires = λ now t. refl;
  IsSigned = IsPlain;
  IsSigned-claims = λ m m' c c' key key' token (_, one, _) (_, two, _). one ∙ sym two;
  sign = plain_sign;
  sign-IsSigned = plain_sign-IsPlain;
  parse = λ key_of now token. accept now token (key_of true);
  parse-IsSigned = λ key_of now token c ok h.
      let (key, given, plain, early) = accept-IsPlain now token (key_of true) c ok h in
      (true, key, given, plain, early);
  parse-accepts = λ key_of now m c key token (hs, same, own) known early.
      accept_complete now c key token (key_of true) same own (sym (ap key_of hs) ∙ known) early;
}

abbrev api : Authenticator String
api = record { secret = "hunter2"; unauthorized = some write_header }

abbrev request : Request
request = record {
  method = "GET";
  uri = "/users/@me";
  host = "api.potat.app";
  remote_addr = "10.0.0.1:999";
  headers = ("Authorization", "Bearer hunter2") ∷ [];
}

abbrev users : ℤ → Reply String
users id = value "ryan"

abbrev greet : String → Handler String Bool
greet user req w s = (write_header 200 w, s)

made : create_jwt library "hunter2" 0 (pos 7) ≡ some "hunter2"
unfolding create_jwt
made = refl

sent : header "Authorization" request.headers ≡ "Bearer " ++ "hunter2"
unfolding header lookup
sent = refl

verify_jwt_iff_example :
    (verify_jwt library "hunter2" 60 "hunter2" ≡ some claims)
    ↔ IsValid library "hunter2" 60 claims "hunter2"
verify_jwt_iff_example = verify_jwt_iff library "hunter2" 60 "hunter2" claims

-- The last second and the first one after it.
dynamic_auth-create_jwt_example :
    dynamic_auth api true
      (verified_id library "hunter2" 15811199)
      users
      greet
      request
      new_writer
      true
    ≡ some (greet "ryan" request new_writer true)
dynamic_auth-create_jwt_example =
    dynamic_auth-create_jwt library api users greet request new_writer true 0 15811199 (pos 7)
      "hunter2" "ryan" made sent refl

expired :
    dynamic_auth api true
      (verified_id library "hunter2" 15811200)
      users
      greet
      request
      new_writer
      true
    ≡ send_unauthorized api new_writer true
expired =
    dynamic_auth-create_jwt library api users greet request new_writer true 0 15811200 (pos 7)
      "hunter2" "ryan" made sent refl
