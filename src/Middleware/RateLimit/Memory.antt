-- ===== src/Middleware/RateLimit/Memory.antt =====
-- A server in memory that counts, and never fails.
use potat_api.Base.{
  refl, ℕ, suc, ◌+◌, ◌≡◌, ◌≢◌, ◌<◌, String, Bool, true, false, Option, none, some, str_eq, eq_iff,
  arith, if◌then◌else◌,
}
use potat_api.Base.Int.{pos, negsuc}
use potat_api.Middleware.RateLimit.Limit.{IsReliable}
use potat_api.Middleware.RateLimit.{Counters, Formats}

abbrev pub Memory : Type 0
Memory = String → ℕ × Bool

abbrev pub poke : Memory → String → ℕ × Bool → Memory
poke m k v j = if str_eq k j then v else m j

abbrev pub memory_incr : String → Memory → Option ℕ × Memory
memory_incr k m = (some (suc (m k).0), poke m k (suc (m k).0, (m k).1))

abbrev pub memory_expire : String → ℕ → Memory → Memory
memory_expire k t m = poke m k ((m k).0, true)

pub memory_incr-count :
    (k : String) (m : Memory) (n : ℕ)
    → (memory_incr k m).0 ≡ some n
    → (n ≡ (m k).0 + 1) × (((memory_incr k m).1 k).0 ≡ n)
memory_incr-count k m n h = ground (arith, eq_iff k k)

pub memory_incr-fails :
    (k : String) (m : Memory) → (memory_incr k m).0 ≡ none → ((memory_incr k m).1 k).0 ≡ (m k).0
memory_incr-fails k m h = ground arith

pub memory_incr-expires : (k : String) (m : Memory) → ((memory_incr k m).1 k).1 ≡ (m k).1
memory_incr-expires k m = ground (arith, eq_iff k k)

pub memory_incr-other :
    (k j : String) (m : Memory)
    → k ≢ j
    → (((memory_incr k m).1 j).0 ≡ (m j).0) × (((memory_incr k m).1 j).1 ≡ (m j).1)
memory_incr-other k j m h = ground (arith, eq_iff k j)

pub memory_expire-count :
    (k j : String) (t : ℕ) (m : Memory) → 0 < t → (memory_expire k t m j).0 ≡ (m j).0
memory_expire-count k j t m h = ground (arith, eq_iff k j)

pub memory_expire-expires :
    (k : String) (t : ℕ) (m : Memory) → 0 < t → (memory_expire k t m k).1 ≡ true
memory_expire-expires k t m h = ground (arith, eq_iff k k)

pub memory_expire-other :
    (k j : String) (t : ℕ) (m : Memory) → k ≢ j → (memory_expire k t m j).1 ≡ (m j).1
memory_expire-other k j t m h = ground (arith, eq_iff k j)

abbrev pub memory : Counters
memory = record {
  State = Memory;
  incr = memory_incr;
  expire = memory_expire;
  ttl = λ k m. if (m k).1 then pos 60 else negsuc 0;
  count = λ k m. (m k).0;
  expires = λ k m. (m k).1;
  incr-count = memory_incr-count;
  incr-fails = memory_incr-fails;
  incr-expires = memory_incr-expires;
  incr-other = memory_incr-other;
  expire-count = memory_expire-count;
  expire-expires = memory_expire-expires;
  expire-other = memory_expire-other;
}

abbrev pub empty : Memory
empty k = (0, false)

abbrev pub formats : Formats
formats = record { of_ℕ = λ n. "n"; of_ℤ = λ z. "z" }

-- The server in memory answers every INCR.
pub memory-IsReliable : IsReliable memory
memory-IsReliable k m = (suc (m k).0, refl)
