-- ===== src/Login/Safety.antt =====
-- What a request to the login can end with, and how often a state is good for one.
use potat_api.Base.{
  ℕ, ◌+◌, ◌≡◌, ◌≢◌, ◌⊎◌, inl, inr, refl, String, Bool, true, false, not, ◌&&◌, Option, none, some,
  List, [], ◌∷◌, str_eq, eq_iff, Bool-cases, arith,
}
use potat_api.Http.{Writer, new_writer}
use potat_api.Account.{AuthorizedUserResponse}
use potat_api.Tokens.Helix.{Validation, Answer}
use potat_api.Tokens.Helix.Laws.{login_refuses_all}
use potat_api.Login.{
  Login, Twitch, Exchange, Event, request, go_on, timeout, put_reply, delete_reply, wake, granted,
  set_reply_deny, expire, exchange_code, finish_login, load_state, delete_state,
  twitch_login_handler, step,
}
use potat_api.Login.Desk.{run}

-- A visit that is given the state.
abbrev pub gives : String → Event → Bool
gives n (request code state nonce) = str_eq code "" && str_eq nonce n
gives n (go_on state exchange validate took) = false
gives n (timeout m) = false

abbrev pub token_of : Exchange → Option String
token_of Exchange.unbuilt = none
token_of Exchange.unanswered = none
token_of Exchange.unparsed = none
token_of (granted token) = some token

abbrev pub one_if : Bool → ℕ
one_if true = 1
one_if false = 0

unfoldable pub times_given : String → List Event → ℕ
times_given n [] = 0
times_given n (e ∷ es) = one_if (gives n e) + times_given n es

-- How the exchange of an admitted callback is answered: 401 with a token, and 500 without.
abbrev pub Refused : Exchange → Writer AuthorizedUserResponse → Type 0
Refused exchange w =
    ((token : String) × (token_of exchange ≡ some token) × (w.status ≡ some 401))
    ⊎ ((token_of exchange ≡ none) × (w.status ≡ some 500))

-- The ways in which a request ends.
abbrev pub Ends :
    String → String → String → Exchange → Login → Writer AuthorizedUserResponse × Login → Type 0
Ends code state nonce exchange s (w, s') =
    ((code ≡ "") × (w.status ≡ some 302) × (s'.replies nonce ≡ true))
    ⊎ (((code ≢ "") × (s.replies state ≡ false) × (w.status ≡ some 403) × (s' ≡ s))
        ⊎ ((code ≢ "")
            × (s.replies state ≡ true)
            × (s'.replies state ≡ false)
            × Refused exchange w))

module _ (config : Twitch) (encode : List (String × String) → String) where
  -- The event is a callback with the state that passes the Load.
  unfoldable pub passes : String → Event → Login → Bool
  passes n (request code state nonce) s =
      not (str_eq code "") && (str_eq state n && s.replies state)
  passes n (go_on state exchange validate took) s = false
  passes n (timeout m) s = false

  -- Such a callback is the one that waits afterwards, and any other is answered at once.
  pub passes-waiting :
      (code state nonce : String) (s : Login)
      → let r = step config encode (request code state nonce) s in
        ((passes state (request code state nonce) s ≡ true)
          × (r.0 ≡ [])
          × (r.1.waiting ≡ state ∷ s.waiting))
        ⊎ ((passes state (request code state nonce) s ≡ false)
            × ((w : Writer AuthorizedUserResponse) × (r.0 ≡ w ∷ []))
            × (r.1.waiting ≡ s.waiting))
  unfolding step passes load_state set_reply_deny
  passes-waiting code state nonce s = elim (Bool-cases (str_eq code "")) [
    | inl empty ↦ inr (rw empty (refl, (_, refl), refl))
    | inr given ↦ elim (Bool-cases (s.replies state)) [
      | inl known ↦
          let own : str_eq state state ≡ true = (eq_iff state state).1 refl in
          inl (rw (given, own, known) (refl, refl, refl))
      | inr unknown ↦ inr (rw (given, unknown) (ground arith, (_, refl), refl))
    ]
  ]

  unfoldable pub times_passed : String → List Event → Login → ℕ
  times_passed n [] s = 0
  times_passed n (e ∷ es) s = one_if (passes n e s) + times_passed n es (step config encode e s).1

  expire-keeps_closed :
      (n m : String) (s : Login) → s.replies n ≡ false → (expire m s).replies n ≡ false
  unfolding expire delete_reply
  expire-keeps_closed n m s shut = elim (Bool-cases (wake m s.timers).0) [
    | inl sleeps ↦ rw sleeps (ground arith)
    | inr free ↦ rw free shut
  ]

  -- A state that is not in the map lets nobody pass, and stays out of it unless it is given again.
  step_closed :
      (n : String) (e : Event) (s : Login)
      → s.replies n ≡ false
      → gives n e ≡ false
      → (passes n e s ≡ false) × ((step config encode e s).1.replies n ≡ false)
  unfolding step passes load_state delete_state set_reply_deny put_reply delete_reply
  step_closed n (timeout m) s shut fresh = (refl, expire-keeps_closed n m s shut)
  step_closed n (go_on state exchange validate took) s shut fresh =
      elim (Bool-cases (wake state s.waiting).0) [
        | inl waits ↦ (refl, rw waits (ground arith))
        | inr none_waits ↦ (refl, rw none_waits shut)
      ]
  step_closed n (request code state nonce) s shut fresh = elim (Bool-cases (str_eq code "")) [
    | inl empty ↦ rw empty (refl, ground (arith, rw empty at fresh))
    | inr given ↦ elim (Bool-cases (s.replies state)) [
      | inl known ↦
          let other : str_eq state n ≡ false = ground (arith, eq_iff state n) in
          rw (given, known, other) (refl, shut)
      | inr unknown ↦ rw (given, unknown) (ground arith, shut)
    ]
  ]

  times_passed-closed :
      (n : String) (es : List Event) (s : Login)
      → s.replies n ≡ false
      → times_given n es ≡ 0
      → times_passed n es s ≡ 0
  unfolding times_passed times_given
  times_passed-closed n [] s shut fresh = refl
  times_passed-closed n (e ∷ es) s shut fresh =
      let none_now : gives n e ≡ false = ground arith in
      let none_later : times_given n es ≡ 0 = ground arith in
      let (now, closed) = step_closed n e s shut none_now in
      let rest = times_passed-closed n es (step config encode e s).1 closed none_later in
      rw now (omega arith)

  -- A state that a callback has used is good for no later one. Whatever interleaving of requests,
  -- rests of callbacks and timeouts came before: once a callback that waits with the state goes on,
  -- no request passes the check with it, over any further interleaving, until a visit is given the
  -- same state again. (Callbacks that passed the check before that go on too.)
  pub times_passed-used :
      (n : String) (exchange : Exchange) (validate : String → Option (Answer Validation))
      (took : String) (before later : List Event) (s : Login)
      → let s₁ = (run config encode before s).1 in
        ((wake n s₁.waiting).0 ≡ true)
        → times_given n later ≡ 0
        → times_passed n later (step config encode (go_on n exchange validate took) s₁).1 ≡ 0
  unfolding step delete_state delete_reply
  times_passed-used n exchange validate took before later s waits fresh =
      let s₁ = (run config encode before s).1 in
      times_passed-closed n later (step config encode (go_on n exchange validate took) s₁).1
        (rw waits (ground (arith, eq_iff n n))) fresh

  exchange_code-Refused :
      (exchange : Exchange) (validate : String → Option (Answer Validation)) (took : String)
      → Refused exchange (exchange_code config exchange validate took new_writer)
  unfolding exchange_code finish_login
  exchange_code-Refused Exchange.unbuilt validate took = inr (refl, refl)
  exchange_code-Refused Exchange.unanswered validate took = inr (refl, refl)
  exchange_code-Refused Exchange.unparsed validate took = inr (refl, refl)
  exchange_code-Refused (granted token) validate took =
      inl (token, refl, rw (login_refuses_all token (validate token)) refl)

  -- Every request to the login ends in one of these ways, none of which is a success: without a code
  -- it is redirected with 302 and its state is remembered; a code with a state that is not in the
  -- map gets 403 and changes nothing; any other code uses the state up, and gets 401 if Twitch gives
  -- a token for it, whatever the check of the token says, and 500 if Twitch gives none.
  pub twitch_login_handler-Refused :
      (code state nonce : String) (exchange : Exchange)
      (validate : String → Option (Answer Validation)) (took : String) (s : Login)
      → Ends code state nonce exchange s
          (twitch_login_handler config encode code state nonce exchange validate took s new_writer)
  unfolding twitch_login_handler load_state delete_state set_reply_deny put_reply delete_reply
  twitch_login_handler-Refused code state nonce exchange validate took s =
      elim (Bool-cases (str_eq code "")) [
        | inl empty ↦
            rw empty (inl ((eq_iff code "").0 empty, refl, ground (arith, eq_iff nonce nonce)))
        | inr given ↦
            let some_code : code ≢ "" = λ e. ground (arith, eq_iff code "") in
            elim (Bool-cases (s.replies state)) [
              | inl known ↦
                  rw (given, known)
                    (inr (
                      inr (
                        some_code,
                        refl,
                        ground (arith, eq_iff state state),
                        exchange_code-Refused exchange validate took,
                      )))
              | inr unknown ↦ rw (given, unknown) (inr (inl (some_code, refl, refl, refl)))
            ]
      ]
