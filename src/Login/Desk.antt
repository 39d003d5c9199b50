-- ===== src/Login/Desk.antt =====
-- What the login promises about its states, as a desk that hands out tickets: a visit opens one, a
-- callback that shows an open ticket may go in, and the ticket is closed when one goes in, or at the
-- end of its time.
use potat_api.Base.{
  ℕ, ◌≡◌, refl, ap, ◌∙◌, String, Bool, true, false, Option, none, some, List, [], ◌∷◌, ◌++◌, map,
  ◌==◌, str_eq, eq_iff, if◌then◌else◌, Bool-cases, inl, inr, arith,
}
use potat_api.Http.{Writer, new_writer}
use potat_api.Account.{AuthorizedUserResponse}
use potat_api.Tokens.Helix.{Validation, Answer, login_refuses}
use potat_api.Login.{
  Login, Twitch, Exchange, Event, request, go_on, timeout, put_reply, delete_reply, wake,
  set_reply_deny, expire, exchange_code, finish_login, load_state, delete_state, step,
}

pub data Verdict : Type 0 where
  sent_away : Verdict
  denied : Verdict
  let_in : Verdict

-- By the status: 302 and 403 are given before anything is asked of Twitch.
abbrev pub verdict_of_status : Option ℕ → Verdict
verdict_of_status none = let_in
verdict_of_status (some code) =
    if code == 302 then sent_away else if code == 403 then denied else let_in

abbrev pub verdict_of : Writer AuthorizedUserResponse → Verdict
verdict_of w = verdict_of_status w.status

abbrev pub open_ticket : String → (String → Bool) → String → Bool
open_ticket n d j = if str_eq n j then true else d j

abbrev pub close_ticket : String → (String → Bool) → String → Bool
close_ticket n d j = if str_eq n j then false else d j

-- The open tickets, and those that were shown by callbacks that have not gone in yet.
pub record Desk : Type 0 where
  pub open_tickets : String → Bool
  pub shown : List String

unfoldable pub desk_step : Event → Desk → List Verdict × Desk
unfolding wake
desk_step (request code state nonce) d =
    if str_eq code ""
    then (sent_away ∷ [], record d { open_tickets = open_ticket nonce d.open_tickets })
    else if d.open_tickets state
    then ([], record d { shown = state ∷ d.shown })
    else (denied ∷ [], d)
desk_step (go_on state exchange validate took) d =
    if (wake state d.shown).0
    then (
      let_in ∷ [],
      record { open_tickets = close_ticket state d.open_tickets; shown = (wake state d.shown).1 },
    )
    else ([], d)
desk_step (timeout nonce) d = ([], record d { open_tickets = close_ticket nonce d.open_tickets })

unfoldable pub desk_run : List Event → Desk → List Verdict × Desk
desk_run [] d = ([], d)
desk_run (e ∷ es) d =
    let (vs, d') = desk_step e d in let (vs', d'') = desk_run es d' in (vs ++ vs', d'')

-- The map holds the open tickets, and for each of them a goroutine still sleeps.
pub record Holds (s : Login) (d : String → Bool) : Type 0 where
  pub same : (n : String) → s.replies n ≡ d n
  pub timed : (n : String) → s.replies n ≡ true → (wake n s.timers).0 ≡ true

abbrev pub Refines : Login → Desk → Type 0
Refines s d = Holds s d.open_tickets × (s.waiting ≡ d.shown)

wake-keeps :
    (n j : String) (ts : List String)
    → str_eq n j ≡ false
    → (wake j (wake n ts).1).0 ≡ (wake j ts).0
unfolding wake
wake-keeps n j [] h = refl
wake-keeps n j (t ∷ ts) h = ground (arith, eq_iff t n, eq_iff t j, eq_iff n j, wake-keeps n j ts h)

set_reply_deny-Holds :
    (n : String) (s : Login) (d : String → Bool)
    → Holds s d
    → Holds (set_reply_deny n s) (open_ticket n d)
unfolding set_reply_deny put_reply wake
set_reply_deny-Holds n s d h = record {
  same = λ j. ground (arith, h.same j);
  timed = λ j e. ground (arith, h.timed j);
}

delete_reply-Holds :
    (n : String) (s : Login) (d : String → Bool)
    → Holds s d
    → Holds (record s { replies = delete_reply n s.replies }) (close_ticket n d)
unfolding delete_reply
delete_reply-Holds n s d h = record {
  same = λ j. ground (arith, h.same j);
  timed = λ j e. ground (arith, h.timed j);
}

-- Without a goroutine that sleeps on it there is no open ticket to close.
closed_already :
    (n : String) (s : Login) (d : String → Bool)
    → Holds s d
    → (wake n s.timers).0 ≡ false
    → Holds s (close_ticket n d)
closed_already n s d h none_sleeps =
    let shut : s.replies n ≡ false = ground (arith, h.timed n) in
    record { same = λ j. ground (arith, eq_iff n j, h.same j, h.same n, shut); timed = h.timed }

woken :
    (n : String) (s : Login) (d : String → Bool)
    → Holds s d
    → Holds
        (record s { replies = delete_reply n s.replies; timers = (wake n s.timers).1 })
        (close_ticket n d)
unfolding delete_reply
woken n s d h = record {
  same = λ j. ground (arith, h.same j);
  timed = λ j e. ground (arith, h.timed j, wake-keeps n j s.timers);
}

expire-Holds :
    (n : String) (s : Login) (d : String → Bool) → Holds s d → Holds (expire n s) (close_ticket n d)
unfolding expire
expire-Holds n s d h = elim (Bool-cases (wake n s.timers).0) [
  | inl sleeps ↦ rw sleeps (woken n s d h)
  | inr free ↦ rw free (closed_already n s d h free)
]

map-append : {A B : Type 0} (f : A → B) (xs ys : List A) → map f (xs ++ ys) ≡ map f xs ++ map f ys
map-append f [] ys = refl
map-append f (x ∷ xs) ys = ap (λ r. f x ∷ r) (map-append f xs ys)

module _ (config : Twitch) (encode : List (String × String) → String) where
  -- The writers of all answers, in order, and the state at the end.
  unfoldable pub run : List Event → Login → List (Writer AuthorizedUserResponse) × Login
  run [] s = ([], s)
  run (e ∷ es) s =
      let (ws, s') = step config encode e s in let (ws', s'') = run es s' in (ws ++ ws', s'')

  exchange_code-verdict :
      (exchange : Exchange) (validate : String → Option (Answer Validation)) (took : String)
      → verdict_of (exchange_code config exchange validate took new_writer) ≡ let_in
  unfolding exchange_code finish_login
  exchange_code-verdict Exchange.unbuilt validate took = refl
  exchange_code-verdict Exchange.unanswered validate took = refl
  exchange_code-verdict Exchange.unparsed validate took = refl
  exchange_code-verdict (Exchange.granted token) validate took =
      elim (Bool-cases (login_refuses token (validate token))) [
        | inl refused ↦ rw refused refl
        | inr accepted ↦ rw accepted refl
      ]

  expire-waiting : (n : String) (s : Login) → (expire n s).waiting ≡ s.waiting
  unfolding expire
  expire-waiting n s = elim (Bool-cases (wake n s.timers).0) [
    | inl sleeps ↦ rw sleeps refl
    | inr free ↦ rw free refl
  ]

  step-Refines :
      (e : Event) (s : Login) (d : Desk)
      → Refines s d
      → (map verdict_of (step config encode e s).0 ≡ (desk_step e d).0)
        × Refines (step config encode e s).1 (desk_step e d).1
  unfolding step desk_step load_state delete_state
  step-Refines (timeout n) s d (h, gate) =
      (refl, (expire-Holds n s d.open_tickets h, expire-waiting n s ∙ gate))
  step-Refines (go_on state exchange validate took) s d (h, gate) =
      elim (Bool-cases (wake state d.shown).0) [
        | inl waits ↦
            let there : (wake state s.waiting).0 ≡ true = rw gate waits in
            rw (waits, there)
              (
                ap (λ v. v ∷ []) (exchange_code-verdict exchange validate took),
                (
                  delete_reply-Holds state (record s { waiting = (wake state s.waiting).1 })
                      d.open_tickets (record { same = h.same; timed = h.timed }),
                  ap (λ ts. (wake state ts).1) gate,
                ),
              )
        | inr none_waits ↦
            let gone : (wake state s.waiting).0 ≡ false = rw gate none_waits in
            rw (none_waits, gone) (refl, (h, gate))
      ]
  step-Refines (request code state nonce) s d (h, gate) = elim (Bool-cases (str_eq code "")) [
    | inl empty ↦
        rw empty
          (refl, (set_reply_deny-Holds nonce s d.open_tickets h, unfold set_reply_deny in gate))
    | inr given ↦ elim (Bool-cases (d.open_tickets state)) [
      | inl known ↦
          let there : s.replies state ≡ true = rw (h.same state) known in
          rw (given, known, there)
            (refl, (record { same = h.same; timed = h.timed }, ap (λ ts. state ∷ ts) gate))
      | inr unknown ↦
          let gone : s.replies state ≡ false = rw (h.same state) unknown in
          rw (given, unknown, gone) (refl, (h, gate))
    ]
  ]

  -- Over any interleaving of requests, of the rest of callbacks that have found their state, and of
  -- timeouts, from a state that stands for the desk's, the login gives the desk's verdicts, one by
  -- one, and ends in a state that stands for the desk's then: a callback is let in exactly if, when it
  -- showed its state, this was given out and had neither been used by a callback that went on nor
  -- timed out. Callbacks that show an open state before one of them goes on are all let in.
  pub run-Refines :
      (es : List Event) (s : Login) (d : Desk)
      → Refines s d
      → (map verdict_of (run es s).0 ≡ (desk_run es d).0) × Refines (run es s).1 (desk_run es d).1
  unfolding run desk_run
  run-Refines [] s d h = (refl, h)
  run-Refines (e ∷ es) s d h =
      let (now, h') = step-Refines e s d h in
      let (later, h'') = run-Refines es (step config encode e s).1 (desk_step e d).1 h' in
      (
        rw
            (
              map-append verdict_of (step config encode e s).0
                  (run es (step config encode e s).1).0,
              now,
              later,
            )
            refl,
        h'',
      )
