-- ===== src/Middleware/RateLimit.antt =====
-- api/middleware/ratelimit.go. The Redis server is a parameter: `Counters` holds the three commands
-- that the Lua script calls, with what Redis documents of them.
pub mod Limit
pub mod Chain
pub mod Shared
pub mod Memory
mod Tests
use potat_api.Base.{
  ℕ, zero, suc, ◌+◌, ◌<◌, ◌≡◌, ◌≢◌, String, Bool, true, false, Option, none, some, List, [], ◌∷◌,
  leb, ltb, ◌==◌, str_eq, if◌then◌else◌,
}
use potat_api.Base.Int.{ℤ, pos, ◌-ℤ◌, eqb_ℤ}
use potat_api.Http.{Request, Writer, Handler, header, set_header, http_error}

pub record Counters : Type 1 where
  pub State : Type 0
  pub incr : String → State → Option ℕ × State
  pub expire : String → ℕ → State → State
  pub ttl : String → State → ℤ
  -- The number at a key, 0 where there is none, and whether the key will expire.
  pub count : String → State → ℕ
  pub expires : String → State → Bool
  -- INCR answers the old number plus one and stores it, or fails and changes nothing; it keeps the
  -- key's expiry, and touches no other key.
  pub incr-count :
      (k : String) (s : State) (n : ℕ)
      → (incr k s).0 ≡ some n
      → (n ≡ count k s + 1) × (count k (incr k s).1 ≡ n)
  pub incr-fails : (k : String) (s : State) → (incr k s).0 ≡ none → count k (incr k s).1 ≡ count k s
  pub incr-expires : (k : String) (s : State) → expires k (incr k s).1 ≡ expires k s
  pub incr-other :
      (k j : String) (s : State)
      → k ≢ j
      → (count j (incr k s).1 ≡ count j s) × (expires j (incr k s).1 ≡ expires j s)
  -- EXPIRE with a positive time gives the key an expiry and changes no number.
  pub expire-count : (k j : String) (t : ℕ) (s : State) → 0 < t → count j (expire k t s) ≡ count j s
  pub expire-expires : (k : String) (t : ℕ) (s : State) → 0 < t → expires k (expire k t s) ≡ true
  pub expire-other :
      (k j : String) (t : ℕ) (s : State) → k ≢ j → expires j (expire k t s) ≡ expires j s

-- What a Lua script can answer, as go-redis decodes it: an int64 or a string, or an array of these.
pub data LuaValue : Type 0 where
  integer : ℤ → LuaValue
  bulk : String → LuaValue

pub data LuaReply : Type 0 where
  array : List LuaValue → LuaReply
  single : LuaValue → LuaReply

pub record Token : Type 0 where
  pub allowed : Bool
  pub remaining : ℤ
  pub remaining_ttl : ℤ

-- The checks of getIPToken on the answer, in its order; `none` is errBadRedisResponse.
unfoldable pub read_token : ℕ → LuaReply → Option Token
read_token limit (array (integer current ∷ integer allowed ∷ integer ttl ∷ [])) = some (record {
  allowed = eqb_ℤ allowed (pos 1);
  remaining = pos limit -ℤ current;
  remaining_ttl = ttl;
})
read_token limit _ = none

-- The values that the limiter prints into headers.
pub record Formats : Type 0 where
  pub of_ℕ : ℕ → String
  pub of_ℤ : ℤ → String

-- `r.Header.Get("CF-Connecting-IP")` where it is set, else the peer's address.
unfoldable pub client_ip : Request → String
unfolding header
client_ip req =
    let forwarded = header "Cf-Connecting-Ip" req.headers in
    if str_eq forwarded "" then req.remote_addr else forwarded

module _ (r : Counters) where
  open r use {State, incr, expire, ttl}

  -- The Lua script: count the request, set the expiry at the first, compare with the limit.
  unfoldable pub script : String → ℕ → ℕ → State → Option LuaReply × State
  script ip window limit s =
      let (answer, s₁) = incr ip s in
      elim answer [
        | none ↦ (none, s₁)
        | some current ↦
            let s₂ = if current == 1 then expire ip window s₁ else s₁ in
            let allowed : ℕ = if leb current limit then 1 else 0 in
            (
              some (
                  array (integer (pos current) ∷ integer (pos allowed) ∷ integer (ttl ip s₂) ∷ [])),
              s₂,
            )
      ]

  -- getIPToken; `none` is any error.
  unfoldable pub get_ip_token : String → ℕ → ℕ → State → Option Token × State
  unfolding script read_token
  get_ip_token ip limit window s =
      let (reply, s') = script ip window limit s in
      elim reply [ none ↦ (none, s') | some answer ↦ (read_token limit answer, s') ]

  module _ {J : Type 0} (f : Formats) where
    -- The headers that an admitted or refused request gets.
    unfoldable pub limit_headers : ℕ → ℕ → Token → Writer J → Writer J
    unfolding set_header
    limit_headers limit window t w = set_header "X-Ratelimit-Remaining" (f.of_ℤ t.remaining) (
        set_header "X-Ratelimit-Window" (f.of_ℕ window) (
          set_header "X-Ratelimit-Limit" (f.of_ℕ limit)
            (set_header "X-Ratelimit-Reset" (f.of_ℤ t.remaining_ttl) w)))

    -- The handler that NewRateLimiter puts before `next`.
    unfoldable pub rate_limiter : ℕ → ℕ → Handler J State → Handler J State
    rate_limiter limit window next req w s =
        let (token, s') = get_ip_token (client_ip req) limit window s in
        elim token [
          | none ↦ (http_error "Internal Server Error" 500 w, s')
          | some t ↦
              let w' = limit_headers limit window t w in
              if t.allowed then next req w' s' else (
                http_error "Too Many Requests" 429
                    (set_header "Retry-After" (f.of_ℤ t.remaining_ttl) w'),
                s',
              )
        ]
