-- ===== src/Middleware/Auth/Jwt/Laws.antt =====
-- Which tokens are valid, and for how long those of CreateJWT let a user in.
use Prim.Native.String.{◌++◌}
use potat_api.Base.{
  ℕ, ◌+◌, ◌≡◌, ◌↔◌, refl, ap, ◌∙◌, inl, inr, String, true, false, none, some, some_inj, Reply,
  value, str_eq, ltb, Bool-cases, Option-cases, eq_iff, strip_prefix, strip_prefix-append,
  if◌then◌else◌,
}
use potat_api.Base.Int.{ℤ}
use potat_api.Http.{Request, Writer, Handler, header}
use potat_api.Middleware.Auth.{
  Authenticator, found_user, find_user, verify_dynamic_auth, admit, dynamic_auth, send_unauthorized,
}
use potat_api.Middleware.Auth.Laws.{bearer_lem}
use potat_api.Middleware.Auth.Jwt.{
  JwtLibrary, Claims, jwt_key_func, verify_jwt, lifetime, create_jwt, verified_id,
}

module _ (lib : JwtLibrary) (secret : String) where
  jwt_key_func-eq-some :
      (m : lib.Method) (key : String)
      → jwt_key_func lib secret m ≡ some key
      → (lib.is_hmac m ≡ true) × (secret ≡ key)
  unfolding jwt_key_func
  jwt_key_func-eq-some m key h = elim (Bool-cases (lib.is_hmac m)) [
    | inl hmac ↦ (hmac, some_inj (rw hmac at h))
    | inr other ↦ absurd (cc (rw other at h))
  ]

  -- What makes a token valid at a time for verifyJWT: its claims are signed with the secret by a
  -- method of HMAC, and they pass the checks of time.
  abbrev pub IsValid : ℕ → Claims lib secret → String → Type 0
  IsValid now c token =
      (m : lib.Method) × (lib.is_hmac m ≡ true)
      × lib.IsSigned m c secret token
      × (lib.valid_at now c.registered ≡ true)

  verify_jwt-IsValid :
      (now : ℕ) (token : String) (c : Claims lib secret)
      → verify_jwt lib secret now token ≡ some c
      → IsValid now c token
  unfolding verify_jwt
  verify_jwt-IsValid now token c h =
      elim (Option-cases (lib.parse (jwt_key_func lib secret) now token)) [
        | inl failed ↦ absurd (cc (rw failed at h))
        | inr ((c', true), parsed) ↦
            let same : c' ≡ c = some_inj (rw parsed at h) in
            let (m, key, given, signed, timely) =
              lib.parse-IsSigned (jwt_key_func lib secret) now token c' true parsed in
            let (hmac, own) = jwt_key_func-eq-some m key given in
            (m, hmac, rw (own, ← same) signed, rw (← same) timely)
        | inr ((c', false), parsed) ↦ absurd (cc (rw parsed at h))
      ]

  -- verifyJWT gives the claims of a token exactly if they are signed with the secret by a method of
  -- HMAC and pass the checks of time: a token that names another method, none among them, is refused.
  pub verify_jwt_iff :
      (now : ℕ) (token : String) (c : Claims lib secret)
      → (verify_jwt lib secret now token ≡ some c) ↔ IsValid now c token
  unfolding verify_jwt jwt_key_func
  verify_jwt_iff now token c = (
    verify_jwt-IsValid now token c,
    λ (m, hmac, signed, timely).
        rw
          (lib.parse-accepts (jwt_key_func lib secret) now m c secret token signed (rw hmac refl)
            timely)
          refl,
  )

  -- A token of CreateJWT is valid for its lifetime, and not after it.
  verified_id-create_jwt :
      (then_ now : ℕ) (id : ℤ) (token : String)
      → create_jwt lib secret then_ id ≡ some token
      → verified_id lib secret now token
        ≡ (if ltb now (then_ + lifetime lib secret) then some id else none)
  unfolding create_jwt
  verified_id-create_jwt then_ now id token made =
      let c : Claims lib secret = record {
        registered = lib.expires (then_ + lifetime lib secret);
        user_id = id;
      } in
      let signed = lib.sign-IsSigned lib.hs256 c secret token made in
      let lasts = lib.valid_at-expires now (then_ + lifetime lib secret) in
      elim (Bool-cases (ltb now (then_ + lifetime lib secret))) [
        | inl early ↦
            rw
              (
                early,
                (verify_jwt_iff now token c).1
                    (lib.hs256, lib.hs256-is_hmac, signed, lasts ∙ early),
              )
              refl
        | inr late ↦ rw late (elim (Option-cases (verify_jwt lib secret now token)) [
          | inl refused' ↦ rw refused' refl
          | inr (c', accepted) ↦
              let (m, _, signed', timely) = verify_jwt-IsValid now token c' accepted in
              let same : c ≡ c' =
                lib.IsSigned-claims lib.hs256 m c c' secret secret token signed signed' in
              absurd (cc (lasts, late, timely, same))
        ])
      ]

-- A text after "Bearer " is not empty.
bearer_given : (token : String) → str_eq ("Bearer " ++ token) "" ≡ false
unfolding strip_prefix
bearer_given token = elim (Bool-cases (str_eq ("Bearer " ++ token) "")) [
  | inl empty ↦
      let e = ap (strip_prefix "Bearer ") ((eq_iff ("Bearer " ++ token) "").0 empty) in
      absurd (cc (e, strip_prefix-append "Bearer " token))
  | inr given ↦ given
]

-- A token that CreateJWT made for a user lets that user in for 183 days and no longer: of requests
-- that carry it after "Bearer ", while the database is at hand and has the user, the handler is run
-- for the user before that time is over, and from then on the request is refused.
pub dynamic_auth-create_jwt :
    {J S User : Type 0} (lib : JwtLibrary) (a : Authenticator J) (user_by_id : ℤ → Reply User)
    (next : User → Handler J S) (req : Request) (w : Writer J) (s : S) (then_ now : ℕ) (id : ℤ)
    (token : String) (u : User)
    → create_jwt lib a.secret then_ id ≡ some token
    → header "Authorization" req.headers ≡ "Bearer " ++ token
    → user_by_id id ≡ value u
    → dynamic_auth a true (verified_id lib a.secret now) user_by_id next req w s ≡ (
        if ltb now (then_ + lifetime lib a.secret)
        then some (next u req w s)
        else send_unauthorized a w s)
unfolding dynamic_auth verify_dynamic_auth admit find_user found_user
dynamic_auth-create_jwt lib a user_by_id next req w s then_ now id token u made sent there =
    let answer = verified_id-create_jwt lib a.secret then_ now id token made in
    elim (Bool-cases (ltb now (then_ + lifetime lib a.secret))) [
      | inl early ↦
          let valid : verified_id lib a.secret now token ≡ some id = answer ∙ rw early refl in
          rw (early, sent, bearer_given token, bearer_lem token, valid, find_user, there) refl
      | inr late ↦
          let invalid : verified_id lib a.secret now token ≡ none = answer ∙ rw late refl in
          rw (late, sent, bearer_given token, bearer_lem token, invalid, find_user) refl
    ]
