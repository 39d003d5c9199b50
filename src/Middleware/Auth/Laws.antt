-- ===== src/Middleware/Auth/Laws.antt =====
-- Who gets past the authenticators, and what becomes of the others.
use Prim.Native.String.{◌++◌}
use potat_api.Base.{
  ◌≡◌, ◌≢◌, refl, ◌⊎◌, inl, inr, String, Bool, true, false, Option, none, some, Reply, Reply-cases,
  absent, fault, value, strip_prefix, strip_prefix-append, str_eq, eq_iff, Bool-cases,
  if◌then◌else◌,
}
use potat_api.Base.Int.{ℤ}
use potat_api.Http.{Request, Writer, Handler, header}
use potat_api.Middleware.Auth.{
  Authenticator, known, refused, remove_first, found_user, find_user, verify_dynamic_auth,
  send_unauthorized, static_auth, admit, dynamic_auth,
}

remove_first-prefix : (p s rest : String) → strip_prefix p s ≡ some rest → remove_first p s ≡ rest
unfolding remove_first
remove_first-prefix p String.[] rest h = rw h refl
remove_first-prefix p (String.◌∷◌ c s) rest h = rw h refl

pub bearer_lem : (key : String) → remove_first "Bearer " ("Bearer " ++ key) ≡ key
bearer_lem key =
    remove_first-prefix "Bearer " ("Bearer " ++ key) key (strip_prefix-append "Bearer " key)

-- Why no user is found: the token is not valid, the database is not at hand, or it has no such user
-- or fails.
abbrev pub IsUnknown : {User : Type 0} → Bool → (ℤ → Reply User) → Option ℤ → Type 0
IsUnknown has_postgres user_by_id o =
    (o ≡ none)
    ⊎ ((has_postgres ≡ false)
        ⊎ ((id : ℤ) × (o ≡ some id) × ((user_by_id id ≡ absent) ⊎ (user_by_id id ≡ fault))))

find_user_sound :
    {User : Type 0} (has_postgres : Bool) (user_by_id : ℤ → Reply User) (o : Option ℤ)
    → ((id : ℤ) × (u : User) × (o ≡ some id)
        × (user_by_id id ≡ value u)
        × (find_user has_postgres user_by_id o ≡ known u))
      ⊎ (IsUnknown has_postgres user_by_id o × (find_user has_postgres user_by_id o ≡ refused))
unfolding find_user found_user
find_user_sound has_postgres user_by_id none = inr (inl refl, refl)
find_user_sound false user_by_id (some id) = inr (inr (inl refl), refl)
find_user_sound true user_by_id (some id) = elim (Reply-cases (user_by_id id)) [
  | inl (u, e) ↦ inl (id, u, refl, e, rw e refl)
  | inr (inl e) ↦ inr (inr (inr (id, refl, inl e)), rw e refl)
  | inr (inr e) ↦ inr (inr (inr (id, refl, inr e)), rw e refl)
]

module _ {J S : Type 0} (a : Authenticator J) (next : Handler J S) (req : Request) (w : Writer J)
    (s : S) where
  -- A request with the header "Bearer key" gets to the handler if the key is the secret; any other
  -- key is answered by the function for refusals.
  pub static_auth-bearer :
      (key : String)
      → header "Authorization" req.headers ≡ "Bearer " ++ key
      → static_auth a next req w s
        ≡ (if str_eq key a.secret then some (next req w s) else send_unauthorized a w s)
  unfolding static_auth
  static_auth-bearer key given = rw (given, bearer_lem key) refl

  -- Where that function is nil, as in the upload service, every wrong key ends in a panic.
  pub static_auth-panics :
      (key : String)
      → header "Authorization" req.headers ≡ "Bearer " ++ key
      → key ≢ a.secret
      → a.unauthorized ≡ none
      → static_auth a next req w s ≡ none
  unfolding send_unauthorized
  static_auth-panics key given wrong nil = elim (Bool-cases (str_eq key a.secret)) [
    | inl same ↦ absurd (wrong ((eq_iff key a.secret).0 same))
    | inr differ ↦ rw (static_auth-bearer key given, differ, nil) refl
  ]

module _ {J S User : Type 0} (a : Authenticator J) (has_postgres : Bool)
    (verify_jwt : String → Option ℤ) (user_by_id : ℤ → Reply User) (next : User → Handler J S)
    (req : Request) (w : Writer J) (s : S) where
  -- The handler is run for the user that the table has for the id in a valid token; or the header is
  -- empty, the token is not valid, the database is not at hand, or it has no such user or fails, and
  -- then the request is refused as unauthorized and the handler is not run.
  pub dynamic_auth_sound :
      ((id : ℤ) × (u : User) × (verify_jwt
            (remove_first "Bearer " (header "Authorization" req.headers))
          ≡ some id)
        × (user_by_id id ≡ value u)
        × (dynamic_auth a has_postgres verify_jwt user_by_id next req w s ≡ some (next u req w s)))
      ⊎ (((str_eq (header "Authorization" req.headers) "" ≡ true)
            ⊎ IsUnknown has_postgres user_by_id
                (verify_jwt (remove_first "Bearer " (header "Authorization" req.headers))))
          × (dynamic_auth a has_postgres verify_jwt user_by_id next req w s
              ≡ send_unauthorized a w s))
  unfolding dynamic_auth verify_dynamic_auth admit
  dynamic_auth_sound =
      let token = header "Authorization" req.headers in
      elim (Bool-cases (str_eq token "")) [
        | inl empty ↦ inr (inl empty, rw empty refl)
        | inr given ↦
            elim (find_user_sound has_postgres user_by_id
              (verify_jwt (remove_first "Bearer " token))) [
                | inl (id, u, valid, there, verdict) ↦
                    inl (id, u, valid, there, rw (given, verdict, admit) refl)
                | inr (why, verdict) ↦ inr (inr why, rw (given, verdict, admit) refl)
              ]
      ]
