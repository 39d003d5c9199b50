-- ===== src/Middleware/RateLimit/Chain.antt =====
-- The limiter as middleware: what it answers itself, what it hands on, and two of them in a row.
use potat_api.Base.{
  ℕ, ◌+◌, ◌<◌, ◌≤◌, ◌≡◌, refl, ap, ◌∙◌, Bool, true, false, Option, some, ltb, ◌&&◌, if◌then◌else◌,
  arith,
}
use native.Mathlib.Decide.{dec_lt}
use potat_api.Http.{Request, Writer, Handler, or_code, set_header, http_error}
use potat_api.Middleware.RateLimit.{
  Counters, Formats, client_ip, get_ip_token, limit_headers, rate_limiter,
}
use potat_api.Middleware.RateLimit.Limit.{IsReliable, get_ip_token-Counted}

module _ (r : Counters) {J : Type 0} (f : Formats) (req : Request) where
  open r use {State, count}

  -- The handler behind the limiter is reached, with some writer and state.
  abbrev pub Passes : (Handler J State → Handler J State) → Writer J → State → ℕ → Type 0
  Passes middleware w s n =
      (w' : Writer J) × (s' : State) × ((next : Handler J State)
        → middleware next req w s ≡ next req w' s')
      × (w'.status ≡ w.status)
      × (count (client_ip req) s' ≡ n)

  -- The limiter answers by itself, with this code if no status is set yet.
  abbrev pub Refuses : (Handler J State → Handler J State) → Writer J → State → ℕ → Type 0
  Refuses middleware w s code =
      (w' : Writer J) × (s' : State) × ((next : Handler J State)
        → middleware next req w s ≡ (w', s'))
      × (w'.status ≡ some (or_code w.status code))

  module _ (limit window : ℕ) (w : Writer J) (s : State) (positive : 0 < window) where
    pub rate_limiter-Passes :
        IsReliable r
        → count (client_ip req) s < limit
        → Passes (rate_limiter r f limit window) w s (count (client_ip req) s + 1)
    unfolding rate_limiter
    rate_limiter-Passes up room =
        let (t, answered, c) = get_ip_token-Counted r (client_ip req) limit window s positive up in
        let yes' : t.allowed ≡ true = ground (arith, c.verdict) in
        (
          limit_headers r f limit window t w,
          (get_ip_token r (client_ip req) limit window s).1,
          λ next. rw (answered, rate_limiter, yes'),
          unfold limit_headers in refl,
          c.counted,
        )

    pub rate_limiter-Refuses :
        IsReliable r
        → limit ≤ count (client_ip req) s
        → Refuses (rate_limiter r f limit window) w s 429
    unfolding rate_limiter
    rate_limiter-Refuses up full =
        let (t, answered, c) = get_ip_token-Counted r (client_ip req) limit window s positive up in
        let no' : t.allowed ≡ false = ground (arith, c.verdict) in
        (
          http_error "Too Many Requests" 429 (
              set_header "Retry-After" (f.of_ℤ t.remaining_ttl)
                (limit_headers r f limit window t w)),
          (get_ip_token r (client_ip req) limit window s).1,
          λ next. rw (answered, rate_limiter, no'),
          unfold limit_headers http_error in refl,
        )

  -- Passes or Refuses, by whether there is room.
  abbrev pub Within : Bool → (Handler J State → Handler J State) → Writer J → State → ℕ → Type 0
  Within room middleware w s n =
      if room then Passes middleware w s n else Refuses middleware w s 429

  -- A limiter alone hands a request on while the count is below its limit.
  pub rate_limiter-alone :
      (limit window : ℕ) (w : Writer J) (s : State)
      → 0 < window
      → IsReliable r
      → Within
          (ltb (count (client_ip req) s) limit)
          (rate_limiter r f limit window)
          w
          s
          (count (client_ip req) s + 1)
  rate_limiter-alone limit window w s positive up = elim (dec_lt (count (client_ip req) s) limit) [
    | yes room ↦
        let opened : ltb (count (client_ip req) s) limit ≡ true = ground arith in
        rw opened (rate_limiter-Passes limit window w s positive up room)
    | no full ↦
        let closed : ltb (count (client_ip req) s) limit ≡ false = ground arith in
        rw closed (rate_limiter-Refuses limit window w s positive up (omega arith))
  ]

  -- Two limiters around one handler count in one place, the address's key. While the server
  -- answers, a request that finds `count` there is handed on when both `count + 1` and `count + 2`
  -- are within the outer and the inner limit, and then counts twice; else one of them answers 429.
  pub rate_limiter-nested :
      (outer inner window window' : ℕ) (w : Writer J) (s : State)
      → 0 < window
      → 0 < window'
      → IsReliable r
      → let both : Handler J State → Handler J State =
          λ next. rate_limiter r f outer window (rate_limiter r f inner window' next) in
        if ltb (count (client_ip req) s) outer && ltb (count (client_ip req) s + 1) inner
        then Passes both w s (count (client_ip req) s + 1 + 1)
        else Refuses both w s 429
  rate_limiter-nested outer inner window window' w s p p' up =
      let n = count (client_ip req) s in
      elim (dec_lt n outer) [
        | no full ↦
            let (w₁, s₁, same, code) = rate_limiter-Refuses outer window w s p up (omega arith) in
            let closed : ltb n outer ≡ false = ground arith in
            rw closed (w₁, s₁, λ next. same (rate_limiter r f inner window' next), code)
        | yes room ↦
            let (w₁, s₁, first, kept, counted) = rate_limiter-Passes outer window w s p up room in
            let opened : ltb n outer ≡ true = ground arith in
            elim (dec_lt (n + 1) inner) [
              | no full ↦
                  let (w₂, s₂, second, code) =
                    rate_limiter-Refuses inner window' w₁ s₁ p' up (rw counted (omega arith)) in
                  let closed : ltb (n + 1) inner ≡ false = ground arith in
                  rw (opened, closed)
                    (
                      w₂,
                      s₂,
                      λ next. first (rate_limiter r f inner window' next) ∙ second next,
                      code ∙ ap (λ (o : Option ℕ). some (or_code o 429)) kept,
                    )
              | yes left ↦
                  let (w₂, s₂, second, kept', counted') =
                    rate_limiter-Passes inner window' w₁ s₁ p' up (rw counted left) in
                  let open' : ltb (n + 1) inner ≡ true = ground arith in
                  rw (opened, open')
                    (
                      w₂,
                      s₂,
                      λ next. first (rate_limiter r f inner window' next) ∙ second next,
                      kept' ∙ kept,
                      counted' ∙ ap (λ (k : ℕ). k + 1) counted,
                    )
            ]
      ]
