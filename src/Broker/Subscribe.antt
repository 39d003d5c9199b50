-- ===== src/Broker/Subscribe.antt =====
-- The goroutine of CreateNatsBroker with subNatsStream, and BridgeRequest, of common/utils/broker.go.
-- What the NATS server answers is given for each attempt; the pauses of five seconds are left out. That
-- nats.go makes a lost connection and its subscriptions anew is inside that library: the goroutine
-- below takes no part in it.
use potat_api.Base.{
  ◌⊎◌, inl, inr, ap, ℕ, ◌+◌, ◌≡◌, refl, String, Bool, true, false, Option, none, List, [], ◌∷◌,
  ◌++◌, All, if◌then◌else◌, Bool-cases, arith,
}
use potat_api.Broker.{State, NatsClient, publish}

-- One round of the loop: whether Subscribe succeeds, and whether the program is shutting down at the
-- select after it.
pub record Attempt : Type 0 where
  pub subscribes : Bool
  pub done : Bool

-- Where the goroutine is: in subNatsStream until the context is done, returned, or before the next
-- round.
pub data Loop : Type 0 where
  listening : Loop
  returned : Loop
  retrying : Loop

-- The number of successful calls of Subscribe for potatbotat.>, and the state of the broker.
pub record Stream (S : Type 0) : Type 0 where
  pub subscriptions : ℕ
  pub state : State S

module _ {S : Type 0} (n : NatsClient S) where
  -- subNatsStream up to its wait; whether it got there.
  unfoldable pub sub_nats_stream : Bool → Stream S → Bool × Stream S
  sub_nats_stream subscribes st =
      if subscribes
      then (
        true,
        record {
          subscriptions = st.subscriptions + 1;
          state = (publish n "github.com/Potat-Industries/potat-api.connected" "" st.state).1;
        },
      )
      else (false, st)

  -- The loop of CreateNatsBroker over the rounds that are to come.
  unfoldable pub keep_subscribed : List Attempt → Stream S → Loop × Stream S
  unfolding sub_nats_stream
  keep_subscribed [] st = (retrying, st)
  keep_subscribed (a ∷ as') st =
      let (waits, st') = sub_nats_stream a.subscribes st in
      let rest = keep_subscribed as' st in
      if waits then (listening, st') else if a.done then (returned, st) else rest

  abbrev pub IsRefused : Attempt → Type 0
  IsRefused a = (a.subscribes ≡ false) × (a.done ≡ false)

  -- The loop stopped at one round, after rounds that were refused.
  abbrev pub StopsAt : (Attempt → Type 0) → List Attempt → Type 0
  StopsAt P attempts =
      (refused : List Attempt) × (last : Attempt) × (rest : List Attempt) × All IsRefused refused
      × P last
      × (attempts ≡ refused ++ last ∷ rest)

  abbrev pub Ends : List Attempt → Stream S → Loop × Stream S → Type 0
  Ends attempts st end =
      ((end.0 ≡ listening)
        × StopsAt (λ a. a.subscribes ≡ true) attempts
        × (end.1.subscriptions ≡ st.subscriptions + 1)
        × (end.1.state
            ≡ (publish n "github.com/Potat-Industries/potat-api.connected" "" st.state).1))
      ⊎ (((end.0 ≡ returned)
            × StopsAt (λ a. (a.subscribes ≡ false) × (a.done ≡ true)) attempts
            × (end.1 ≡ st))
          ⊎ ((end.0 ≡ retrying) × All IsRefused attempts × (end.1 ≡ st)))

  abbrev later_stop :
      (P : Attempt → Type 0) (a : Attempt) (attempts : List Attempt)
      → IsRefused a
      → StopsAt P attempts
      → StopsAt P (a ∷ attempts)
  later_stop P a attempts h (refused, last, rest, hs, p, e) =
      (a ∷ refused, last, rest, (h, hs), p, ap (λ as'. a ∷ as') e)

  -- How the goroutine of the broker ends, by what Subscribe answers to each attempt. It calls
  -- Subscribe with success once at most, at the first attempt that succeeds, announces itself once
  -- then, and tries nothing after it. Else it returns when the program shuts down after a refused
  -- attempt, or is still trying, and has neither subscribed nor announced itself.
  pub keep_subscribed-Ends :
      (attempts : List Attempt) (st : Stream S) → Ends attempts st (keep_subscribed attempts st)
  unfolding keep_subscribed
  keep_subscribed-Ends [] st = inr (inr (refl, tt, refl))
  keep_subscribed-Ends (a ∷ attempts) st = elim (Bool-cases a.subscribes) [
    | inl yes' ↦ inl (simp yes', ([], a, attempts, tt, yes', refl), simp yes', simp yes')
    | inr no' ↦ elim (Bool-cases a.done) [
      | inl over ↦
          inr (inl (simp (no', over), ([], a, attempts, tt, (no', over), refl), simp (no', over)))
      | inr on ↦ elim (keep_subscribed-Ends attempts st) [
        | inl (e, stop, subs, state) ↦ inl (
          simp (no', on, e),
          later_stop (λ b. b.subscribes ≡ true) a attempts (no', on) stop,
          simp (no', on, subs),
          simp (no', on, state),
        )
        | inr (inl (e, stop, same)) ↦ inr (
            inl (
              simp (no', on, e),
              later_stop (λ b. (b.subscribes ≡ false) × (b.done ≡ true)) a attempts (no', on) stop,
              simp (no', on, same),
            ))
        | inr (inr (e, all', same)) ↦
            inr (inr (simp (no', on, e), ((no', on), all'), simp (no', on, same)))
      ]
    ]
  ]

-- BridgeRequest over the number of open connections: each call connects anew, and closes nothing. The
-- text of an error is none.
unfoldable pub bridge_request : Bool → Option String → ℕ → Option String × ℕ
bridge_request connects answer open_connections =
    if connects then (answer, open_connections + 1) else (none, open_connections)

unfoldable pub bridge_requests : List (Bool × Option String) → ℕ → ℕ
unfolding bridge_request
bridge_requests [] k = k
bridge_requests ((connects, answer) ∷ calls) k =
    bridge_requests calls (bridge_request connects answer k).1

abbrev pub count_connected : List (Bool × Option String) → ℕ
count_connected [] = 0
count_connected ((connects, answer) ∷ calls) = (if connects then 1 else 0) + count_connected calls

-- Every call that connects leaves one more connection open, whatever it answers.
pub bridge_requests-leaves :
    (calls : List (Bool × Option String)) (k : ℕ)
    → bridge_requests calls k ≡ k + count_connected calls
unfolding bridge_requests
bridge_requests-leaves [] k = omega arith
bridge_requests-leaves ((connects, answer) ∷ calls) k =
    ground (arith, bridge_requests-leaves calls (bridge_request connects answer k).1)
