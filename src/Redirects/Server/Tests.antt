-- ===== src/Redirects/Server/Tests.antt =====
-- The redirect service in memory, for an address that has made ninety-nine requests.
use potat_api.Base.{
  ℕ, ◌<◌, ◌≡◌, ◌≢◌, refl, String, true, false, some, [], ◌∷◌, ◌==◌, eq_iff, arith, none, str_eq,
  if◌then◌else◌,
}
use potat_api.Http.{Request, Writer, new_writer}
use potat_api.Services.Memory.{memory_cache, no_entries, poke, Entries}
use potat_api.Middleware.RateLimit.Memory.{Memory, memory, memory_incr, memory_expire}
use potat_api.Middleware.RateLimit.Shared.{SharedRedis}
use potat_api.Redirects.Memory.{Rows}
use potat_api.Redirects.Clean.{clean}
use potat_api.Redirects.Server.{address}

addresses : (address "localhost" "" ≡ none) × (address "localhost" "80" ≡ some "localhost:80")
unfolding address
addresses = (refl, refl)

abbrev rows : Rows
rows = ("abc", "http://google.com") ∷ []

abbrev cache : Entries
cache = poke no_entries "abc" (some (clean "http://google.com"))

-- A number that is not 0 hides what is cached; every number is printed alike.
abbrev view : Memory → Entries
view m k = if (m k).0 == 0 then cache k else some "100"

view-incr :
    (k : String) (n : ℕ) (m : Memory)
    → (memory_incr k m).0 ≡ some n
    → view (memory_incr k m).1 k ≡ some "100"
view-incr k n m h = ground (arith, eq_iff k k)

view-others : (k j : String) (m : Memory) → k ≢ j → view (memory_incr k m).1 j ≡ view m j
view-others k j m h = ground (arith, eq_iff k j)

view-expire : (k j : String) (t : ℕ) (m : Memory) → 0 < t → view (memory_expire k t m) j ≡ view m j
view-expire k j t m h = ground (arith, eq_iff k j)

abbrev server : SharedRedis
server = record {
  counters = memory;
  cache = memory_cache;
  view = view;
  printed = λ n. "100";
  printed-full = λ n. refl;
  incr-contents = view-incr;
  incr-others = view-others;
  expire-contents = view-expire;
}

-- The router in memory has plain paths.
abbrev visit : Request
visit = record {
  method = "GET";
  uri = "/{id}";
  host = "p.gg";
  remote_addr = "10.0.0.1:999";
  headers = [];
}

abbrev id : Request → String
id req = "abc"

abbrev own_address : Request → String
own_address req = "10.0.0.1:999"

abbrev busy : Memory
busy k = if str_eq k "10.0.0.1:999" then (99, true) else (0, false)

abbrev blank : Writer String
blank = new_writer
