-- ===== src/Tokens/Helix/Laws.antt =====
-- What the token checks can and cannot say.
use potat_api.Base.{
  ℕ, ◌≡◌, ◌≢◌, ◌↔◌, inl, inr, refl, String, Bool, true, false, not, Option, none, some, ◌==◌,
  ==_iff, str_eq, Bool-cases, some_inj, if◌then◌else◌, arith,
}
use potat_api.Tokens.Helix.{
  Validation, Answer, Oauth, Credentials, read_validation, validate_helix_token, login_refuses,
  refreshed, failed, panicked, refreshed_by, refresh_helix_token,
}

read_validation-ok :
    (return_all : Bool) (res : Answer Validation)
    → return_all ≡ false
    → (read_validation return_all (some res)).ok ≡ not (res.status == 401)
unfolding read_validation
read_validation-ok true res h = cc
read_validation-ok false res h = refl

-- Login refuses every token, whatever Twitch answers: it asks for the check without the body, and
-- then the user id is always empty.
pub login_refuses_all :
    (token : String) (answer : Option (Answer Validation)) → login_refuses token answer ≡ true
unfolding login_refuses validate_helix_token
login_refuses_all token none = elim (Bool-cases (str_eq token "")) [
  | inl empty ↦ rw empty refl
  | inr given ↦ rw given refl
]
login_refuses_all token (some res) = elim (Bool-cases (str_eq token "")) [
  | inl empty ↦ rw empty refl
  | inr given ↦ elim (Bool-cases (res.status == 401)) [
    | inl out ↦ rw (given, out) refl
    | inr good ↦ rw (given, good) refl
  ]
]

-- Without the body a token that is not empty counts as valid exactly if Twitch answers, with any
-- status but 401; only a failed request is an error.
pub validate_helix_token-ok_iff :
    (token : String) (answer : Option (Answer Validation))
    → str_eq token "" ≡ false
    → (((validate_helix_token token false answer).ok ≡ true)
        ↔ ((res : Answer Validation) × (answer ≡ some res) × (res.status ≢ 401)))
      × (((validate_helix_token token false answer).failed ≡ true) ↔ (answer ≡ none))
unfolding validate_helix_token
validate_helix_token-ok_iff token none given =
    rw given ((λ h. cc, λ (res, h, code). cc), (λ h. refl, λ h. refl))
validate_helix_token-ok_iff token (some res) given = rw given (
  (
    λ h. (res, refl, λ e. ground (arith, ==_iff res.status 401)),
    λ (res', h, code). ground (arith, ==_iff res.status 401),
  ),
  (λ h. cc, λ h. cc),
)

refreshed_by_iff :
    (code : ℕ) (body : Option Oauth) (o : Oauth)
    → (((if code == 200 then refreshed_by body else failed) ≡ refreshed o)
        ↔ ((code ≡ 200) × (body ≡ some o)))
      × ((if code == 200 then refreshed_by body else failed) ≢ panicked)
refreshed_by_iff code none o = ground (arith, ==_iff code 200)
refreshed_by_iff code (some p) o = ground (arith, ==_iff code 200)

-- A refresh with a token and credentials gives new tokens exactly if the answer has the status 200
-- and a body that decodes; it panics exactly if the request fails.
pub refresh_helix_token_iff :
    (config : Credentials) (token : String) (answer : Option (Answer Oauth)) (o : Oauth)
    → str_eq token "" ≡ false
    → str_eq config.client_id "" ≡ false
    → str_eq config.client_secret "" ≡ false
    → ((refresh_helix_token config token answer ≡ refreshed o)
        ↔ ((res : Answer Oauth) × (answer ≡ some res) × (res.status ≡ 200) × (res.body ≡ some o)))
      × ((refresh_helix_token config token answer ≡ panicked) ↔ (answer ≡ none))
unfolding refresh_helix_token
refresh_helix_token_iff config token none o given id secret =
    rw (given, id, secret) ((λ h. cc, λ (res, h, code, body). cc), (λ h. refl, λ h. refl))
refresh_helix_token_iff config token (some res) o given id secret =
    let (there, never) = refreshed_by_iff res.status res.body o in
    rw (given, id, secret)
      (
        (
          λ h. (res, refl, (there.0 h).0, (there.0 h).1),
          λ (res', h, code, body).
              let e : res ≡ res' = some_inj h in there.1 (rw e code, rw e body),
        ),
        (λ h. absurd (never h), λ h. cc),
      )
