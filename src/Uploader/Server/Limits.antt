-- ===== src/Uploader/Server/Limits.antt =====
-- How many requests of one address the upload service lets through to each handler.
use potat_api.Base.{
  ℕ, ◌+◌, ◌≡◌, refl, ◌∙◌, inl, inr, String, Bool, true, false, ◌&&◌, ltb, str_eq, Bool-cases,
  Option-cases, if◌then◌else◌, arith,
}
use potat_api.Http.{Request, Writer, Handler, header}
use potat_api.Middleware.RateLimit.{
  Counters, Formats, client_ip, get_ip_token, limit_headers, rate_limiter,
}
use potat_api.Middleware.RateLimit.Limit.{IsReliable}
use potat_api.Middleware.RateLimit.Chain.{Refuses, Within, rate_limiter-alone, rate_limiter-nested}
use potat_api.Middleware.Auth.{remove_first, static_auth, send_unauthorized}
use potat_api.Api.Server.{Mux, found_at}
use potat_api.Uploader.Server.{routes, deleting, uploading, serve}

-- The routes, and their places among them.
pub data Endpoint : Type 0 where
  reading removing storing : Endpoint

abbrev pub index : Endpoint → ℕ
index reading = 0
index removing = 1
index storing = 2

module _ (r : Counters) {J : Type 0} (f : Formats) (req : Request) where
  open r use {State, count}

  -- What the limiter does depends on the handler at this request only.
  rate_limiter-cong :
      (limit window : ℕ) (one two : Handler J State) (w : Writer J) (s : State)
      → ((w' : Writer J) (s' : State) → one req w' s' ≡ two req w' s')
      → rate_limiter r f limit window one req w s ≡ rate_limiter r f limit window two req w s
  unfolding rate_limiter
  rate_limiter-cong limit window one two w s same =
      elim (Option-cases (get_ip_token r (client_ip req) limit window s).0) [
        | inl failed ↦ rw (failed, rate_limiter) refl
        | inr (t, answered) ↦ elim (Bool-cases t.allowed) [
          | inl yes' ↦ simp (
            answered,
            rate_limiter,
            yes',
            same (limit_headers r f limit window t w)
                (get_ip_token r (client_ip req) limit window s).1,
          )
          | inr no' ↦ simp (answered, rate_limiter, no')
        ]
      ]

  Within-same :
      (room : Bool) (one two : Handler J State → Handler J State) (w : Writer J) (s : State) (n : ℕ)
      → ((next : Handler J State) → one next req w s ≡ two next req w s)
      → Within r f req room two w s n
      → Within r f req room one w s n
  Within-same true one two w s n same (w', s', same', kept, counted) =
      (w', s', λ next. same next ∙ same' next, kept, counted)
  Within-same false one two w s n same (w', s', same', code) =
      (w', s', λ next. same next ∙ same' next, code)

  module _ (auth_key : String) (mux : Mux) (w : Writer J) (s : State) where
    abbrev pub has_key : Bool
    has_key = str_eq (remove_first "Bearer " (header "Authorization" req.headers)) auth_key

    -- The service as middleware around one of its handlers.
    abbrev pub to_get : Handler J State → Handler J State → Handler J State → Handler J State
    to_get two three one = serve r f auth_key one two three mux

    abbrev pub to_delete : Handler J State → Handler J State → Handler J State → Handler J State
    to_delete one three two = serve r f auth_key one two three mux

    abbrev pub to_upload : Handler J State → Handler J State → Handler J State → Handler J State
    to_upload one two three = serve r f auth_key one two three mux

    -- The request ends in the panic of the nil function, with what the limiter has written.
    abbrev pub Panics : (Handler J State → Handler J State) → ℕ → Type 0
    Panics middleware n =
        (w' : Writer J) × (s' : State) × ((next : Handler J State)
          → middleware next req w s ≡ (w', s'))
        × (w'.status ≡ w.status)
        × (count (client_ip req) s' ≡ n)

    uploading-keyed :
        (next : Handler J State) (w' : Writer J) (s' : State)
        → has_key ≡ true
        → uploading r f auth_key next req w' s' ≡ rate_limiter r f 25 60 next req w' s'
    unfolding uploading static_auth
    uploading-keyed next w' s' key = rw key refl

    uploading-panics :
        (next : Handler J State) (w' : Writer J) (s' : State)
        → has_key ≡ false
        → uploading r f auth_key next req w' s' ≡ (w', s')
    unfolding uploading static_auth send_unauthorized
    uploading-panics next w' s' key = rw key refl

    uploading-Panics :
        (one two : Handler J State) (room : Bool) (n : ℕ)
        → has_key ≡ false
        → mux.match_route routes req ≡ found_at 2
        → Within r f req room (rate_limiter r f 200 60) w s n
        → if room then Panics (to_upload one two) n else Refuses r f req (to_upload one two) w s 429
    unfolding serve
    uploading-Panics one two true n key found (w', s', same, kept, counted) = (
      w',
      s',
      λ next. rw found (same (uploading r f auth_key next) ∙ uploading-panics next w' s' key),
      kept,
      counted,
    )
    uploading-Panics one two false n key found (w', s', same, code) =
        (w', s', λ next. rw found (same (uploading r f auth_key next)), code)

    module _ (one two three : Handler J State) where
      -- What becomes of a request for each of the routes.
      abbrev pub Ends : Endpoint → Type 0
      Ends reading =
          Within r f req (ltb (count (client_ip req) s) 200) (to_get two three) w s
            (count (client_ip req) s + 1)
      Ends removing =
          Within r f req (ltb (count (client_ip req) s) 200 && ltb (count (client_ip req) s + 1) 15)
            (to_delete one three) w s (count (client_ip req) s + 1 + 1)
      Ends storing =
          if has_key
          then Within r f req
              (ltb (count (client_ip req) s) 200 && ltb (count (client_ip req) s + 1) 25)
              (to_upload one two) w s (count (client_ip req) s + 1 + 1)
          else if ltb (count (client_ip req) s) 200
          then Panics (to_upload one two) (count (client_ip req) s + 1)
          else Refuses r f req (to_upload one two) w s 429

      -- What the service does with a request by the number `n` that its address already has in the
      -- window, while the counting server answers. A file is read below 200. A file is deleted if
      -- also `n + 1` is below 15, and one is uploaded if it is below 25 and the request has the key,
      -- and each of these counts twice; what is over a limit is answered 429. An upload without the
      -- key that is within the first limit panics and is not answered.
      pub serve-Ends :
          (e : Endpoint) → IsReliable r → mux.match_route routes req ≡ found_at (index e) → Ends e
      unfolding serve deleting
      serve-Ends reading up found =
          Within-same (ltb (count (client_ip req) s) 200) (to_get two three)
            (rate_limiter r f 200 60) w s (count (client_ip req) s + 1) (λ next. rw found refl)
            (rate_limiter-alone r f req 200 60 w s (omega arith) up)
      serve-Ends removing up found =
          Within-same (ltb (count (client_ip req) s) 200 && ltb (count (client_ip req) s + 1) 15)
            (to_delete one three) (λ next. rate_limiter r f 200 60 (rate_limiter r f 15 60 next)) w
            s (count (client_ip req) s + 1 + 1) (λ next. rw found refl)
            (rate_limiter-nested r f req 200 15 60 60 w s (omega arith) (omega arith) up)
      serve-Ends storing up found = elim (Bool-cases has_key) [
        | inl key ↦ rw key (
            Within-same (ltb (count (client_ip req) s) 200 && ltb (count (client_ip req) s + 1) 25)
              (to_upload one two) (λ next. rate_limiter r f 200 60 (rate_limiter r f 25 60 next)) w
              s (count (client_ip req) s + 1 + 1)
              (λ next. rw found (
                rate_limiter-cong 200 60 (uploading r f auth_key next) (rate_limiter r f 25 60 next)
                  w s (λ w' s'. uploading-keyed next w' s' key)))
              (rate_limiter-nested r f req 200 25 60 60 w s (omega arith) (omega arith) up))
        | inr wrong ↦ rw wrong (
            uploading-Panics one two (ltb (count (client_ip req) s) 200)
              (count (client_ip req) s + 1) wrong found
              (rate_limiter-alone r f req 200 60 w s (omega arith) up))
      ]
