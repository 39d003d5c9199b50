-- ===== src/Middleware/RateLimit/Limit.antt =====
-- How many requests of an address the limiter lets through.
use Prim.Native.Nat.{min}
use potat_api.Base.{
  ℕ, zero, suc, ◌+◌, ◌-◌, ◌<◌, ◌≡◌, refl, String, true, none, some, ltb, eq_iff, if◌then◌else◌,
  Option-cases, inl, inr, arith,
}
use potat_api.Base.Int.{sub_ℕ}
use potat_api.Middleware.RateLimit.{Counters, Token, script, get_ip_token}

module _ (r : Counters) where
  open r use {State, incr, expire, ttl, count, expires}

  -- The server answers every INCR: it is up, and the key holds a number.
  abbrev pub IsReliable : Type 0
  IsReliable = (k : String) (s : State) → (n : ℕ) × ((incr k s).0 ≡ some n)

  -- One call of getIPToken that is answered.
  pub record Counted (ip : String) (limit : ℕ) (s : State) (t : Token) (s' : State) : Type 0 where
    pub verdict : t.allowed ≡ ltb (count ip s) limit
    pub left : t.remaining ≡ sub_ℕ limit (count ip s + 1)
    pub counted : count ip s' ≡ count ip s + 1

  pub get_ip_token-Counted :
      (ip : String) (limit window : ℕ) (s : State)
      → 0 < window
      → IsReliable
      → (t : Token) × ((get_ip_token r ip limit window s).0 ≡ some t)
        × Counted ip limit s t (get_ip_token r ip limit window s).1
  unfolding get_ip_token
  get_ip_token-Counted ip limit window s positive up =
      let (n, answered) = up ip s in
      let fresh = r.incr-count ip s n answered in
      rw (answered, get_ip_token, script)
        (
          _,
          refl,
          record {
            verdict = ground arith;
            left = ground arith;
            counted = ground (arith, r.expire-count ip ip window (incr ip s).1 positive);
          },
        )

  -- How many of `n` requests in a row are admitted.
  unfoldable pub admitted : String → ℕ → ℕ → ℕ → State → ℕ
  admitted ip limit window zero s = 0
  admitted ip limit window (suc n) s =
      let (token, s') = get_ip_token r ip limit window s in
      let later = admitted ip limit window n s' in
      elim token [ none ↦ later | some t ↦ if t.allowed then suc later else later ]

  -- Of `n` requests from one address within a window, exactly those are admitted that the limit
  -- still leaves room for, while the server answers.
  pub admitted-eq-min :
      (ip : String) (limit window n : ℕ) (s : State)
      → 0 < window
      → IsReliable
      → admitted ip limit window n s ≡ min n (limit - count ip s)
  unfolding admitted
  admitted-eq-min ip limit window zero s positive up = omega arith
  admitted-eq-min ip limit window (suc n) s positive up =
      let s' = (get_ip_token r ip limit window s).1 in
      let (t, answered, c) = get_ip_token-Counted ip limit window s positive up in
      let later = admitted-eq-min ip limit window n s' positive up in
      ground (arith, answered, later, c.verdict, c.counted)

  -- Every key that counts requests will expire.
  abbrev pub IsLasting : State → Type 0
  IsLasting s = (k : String) → 0 < count k s → expires k s ≡ true

  -- The script sets the expiry with the first request and never takes it away: whether the server
  -- answers or not, no address is counted under a key that stays for ever.
  pub get_ip_token-IsLasting :
      (ip : String) (limit window : ℕ) (s : State)
      → 0 < window
      → IsLasting s
      → IsLasting (get_ip_token r ip limit window s).1
  unfolding get_ip_token
  get_ip_token-IsLasting ip limit window s positive lasting k counted =
      let here = r.incr-other ip k s in
      let after = r.expire-other ip k window (incr ip s).1 in
      let same = r.expire-count ip k window (incr ip s).1 positive in
      let set = r.expire-expires ip window (incr ip s).1 positive in
      elim (Option-cases (incr ip s).0) [
        | inl failed ↦
            ground
              (arith, lasting k, eq_iff ip k, here, r.incr-fails ip s failed, r.incr-expires ip s)
        | inr (n, answered) ↦ ground (
          arith,
          lasting k,
          eq_iff ip k,
          here,
          after,
          same,
          set,
          r.incr-count ip s n answered,
          r.incr-expires ip s,
        )
      ]
