-- ===== src/Middleware/RateLimit/Shared.antt =====
-- The one Redis server of main.go, as the limiter of api/middleware/ratelimit.go and the caches of the
-- services use it: their keys are in one space, and the limiter's are the bare addresses.
use potat_api.Base.{
  ℕ, ◌<◌, ◌≡◌, ◌≢◌, refl, ap, ◌∙◌, String, Bool, false, some, ◌==◌, str_eq, Bool-cases,
  Option-cases, inl, inr, if◌then◌else◌,
}
use potat_api.Http.{Request, Writer, Handler}
use potat_api.Services.{Cache}
use potat_api.Middleware.RateLimit.{
  Counters, Formats, client_ip, script, get_ip_token, rate_limiter,
}

pub record SharedRedis : Type 1 where
  pub counters : Counters
  pub cache : Cache
  -- The server as GET and SETEX see it.
  pub view : counters.State → cache.State
  -- A number is stored as its decimal digits, which GET answers as a text.
  pub printed : ℕ → String
  pub printed-full : (n : ℕ) → str_eq (printed n) "" ≡ false
  pub incr-contents :
      (k : String) (n : ℕ) (s : counters.State)
      → (counters.incr k s).0 ≡ some n
      → cache.contents k (view (counters.incr k s).1) ≡ some (printed n)
  pub incr-others :
      (k j : String) (s : counters.State)
      → k ≢ j
      → cache.contents j (view (counters.incr k s).1) ≡ cache.contents j (view s)
  pub expire-contents :
      (k j : String) (t : ℕ) (s : counters.State)
      → 0 < t
      → cache.contents j (view (counters.expire k t s)) ≡ cache.contents j (view s)

module _ (m : SharedRedis) where
  open m use {counters, cache, view}

  expire_if-contents :
      (k j : String) (t : ℕ) (first : Bool) (s : counters.State)
      → 0 < t
      → cache.contents j (view (if first then counters.expire k t s else s))
        ≡ cache.contents j (view s)
  expire_if-contents k j t first s positive = elim (Bool-cases first) [
    | inl yes' ↦ rw yes' (m.expire-contents k j t s positive)
    | inr no' ↦ rw no' refl
  ]

  get_ip_token-state :
      (ip : String) (limit window : ℕ) (s : counters.State)
      → (get_ip_token counters ip limit window s).1 ≡ (script counters ip window limit s).1
  unfolding get_ip_token
  get_ip_token-state ip limit window s = elim (Option-cases (script counters ip window limit s).0) [
    | inl failed ↦ rw (failed, get_ip_token) refl
    | inr (answer, e) ↦ rw (e, get_ip_token) refl
  ]

  script-others :
      (ip j : String) (limit window : ℕ) (s : counters.State)
      → 0 < window
      → ip ≢ j
      → cache.contents j (view (script counters ip window limit s).1) ≡ cache.contents j (view s)
  unfolding script
  script-others ip j limit window s positive apart = elim (Option-cases (counters.incr ip s).0) [
    | inl failed ↦ rw (failed, script) (m.incr-others ip j s apart)
    | inr (n, answered) ↦
        rw (answered, script)
          (expire_if-contents ip j window (n == 1) (counters.incr ip s).1 positive
            ∙ m.incr-others ip j s apart)
  ]

  script-contents :
      (ip : String) (limit window n : ℕ) (s : counters.State)
      → 0 < window
      → (counters.incr ip s).0 ≡ some n
      → cache.contents ip (view (script counters ip window limit s).1) ≡ some (m.printed n)
  unfolding script
  script-contents ip limit window n s positive answered =
      rw (answered, script)
        (expire_if-contents ip ip window (n == 1) (counters.incr ip s).1 positive
          ∙ m.incr-contents ip n s answered)

  -- The limiter changes no key but the address.
  pub get_ip_token-others :
      (ip j : String) (limit window : ℕ) (s : counters.State)
      → 0 < window
      → ip ≢ j
      → cache.contents j (view (get_ip_token counters ip limit window s).1)
        ≡ cache.contents j (view s)
  get_ip_token-others ip j limit window s positive apart =
      ap (λ x. cache.contents j (view x)) (get_ip_token-state ip limit window s)
      ∙ script-others ip j limit window s positive apart

  -- Under the address it leaves the number of requests.
  pub get_ip_token-contents :
      (ip : String) (limit window n : ℕ) (s : counters.State)
      → 0 < window
      → (counters.incr ip s).0 ≡ some n
      → cache.contents ip (view (get_ip_token counters ip limit window s).1) ≡ some (m.printed n)
  get_ip_token-contents ip limit window n s positive answered =
      ap (λ x. cache.contents ip (view x)) (get_ip_token-state ip limit window s)
      ∙ script-contents ip limit window n s positive answered

  -- Around a handler that leaves the server as it is, the limiter leaves it as its count does.
  pub rate_limiter-state :
      {J : Type 0} (f : Formats) (limit window : ℕ) (next : Handler J counters.State)
      (req : Request) (w : Writer J) (s : counters.State)
      → ((w' : Writer J) (s' : counters.State) → (next req w' s').1 ≡ s')
      → (rate_limiter counters f limit window next req w s).1
        ≡ (get_ip_token counters (client_ip req) limit window s).1
  unfolding rate_limiter
  rate_limiter-state f limit window next req w s same =
      elim (Option-cases (get_ip_token counters (client_ip req) limit window s).0) [
        | inl failed ↦ rw (failed, rate_limiter) refl
        | inr (t, answered) ↦ elim (Bool-cases t.allowed) [
          | inl yes' ↦ simp (answered, rate_limiter, yes', same)
          | inr no' ↦ simp (answered, rate_limiter, no')
        ]
      ]
