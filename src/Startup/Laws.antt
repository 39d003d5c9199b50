-- ===== src/Startup/Laws.antt =====
-- Which result a ping ends with, and which configurations crash.
use potat_api.Base.{
  ℕ, zero, suc, ◌<◌, ◌≡◌, refl, String, Bool, true, false, not, ◌&&◌, ◌||◌, Option, some, List, [],
  ◌∷◌, ◌++◌, arith,
}
use potat_api.Startup.{
  Tick, result, deadline, attempts, run_with_timeout, Config, init_clickhouse, make_clients,
  started_parts, calls_nil, meets_nil_client, any_nil, Clients, Part, part_if, loops, socket, haste,
  redirects, uploader, api,
}

abbrev pub deadlines : ℕ → List Tick
deadlines zero = []
deadlines (suc k) = deadline ∷ deadlines k

-- The ping ends with the first result that comes before the third deadline, whichever attempt it is
-- of and whatever would come later: the late error of an attempt that has timed out is taken for the
-- result of the next one. Without a result it times out at the third deadline.
pub run_with_timeout-first :
    (k : ℕ) (e : Option String) (ticks : List Tick)
    → k < 3
    → (run_with_timeout (deadlines k ++ result e ∷ ticks) ≡ some e)
      × (run_with_timeout (deadlines 3 ++ ticks) ≡ some (some "ping timed out"))
unfolding run_with_timeout attempts
run_with_timeout-first zero e ticks h = (refl, refl)
run_with_timeout-first (suc zero) e ticks h = (refl, refl)
run_with_timeout-first (suc (suc zero)) e ticks h = (refl, refl)
run_with_timeout-first (suc (suc (suc k))) e ticks h = absurd (omega (arith, h))

any_nil-append :
    (clients : Clients) (ps qs : List Part)
    → any_nil clients (ps ++ qs) ≡ (any_nil clients ps || any_nil clients qs)
any_nil-append clients [] qs = refl
any_nil-append clients (p ∷ ps) qs = ground (arith, any_nil-append clients ps qs)

any_nil-part_if :
    (clients : Clients) (b : Bool) (p : Part)
    → any_nil clients (part_if b p) ≡ (b && calls_nil clients p)
any_nil-part_if clients true p = ground arith
any_nil-part_if clients false p = refl

-- A nil client is called exactly in the configurations that start the socket service or the loops
-- without the broker: ClickHouse is there whenever it is called.
pub meets_nil_client_iff :
    (config : Config)
    → meets_nil_client config ≡ ((config.socket || config.loops) && not config.nats)
unfolding meets_nil_client started_parts make_clients init_clickhouse calls_nil
meets_nil_client_iff config =
    let clients = make_clients config in
    let up = part_if config.uploader uploader in
    let one = part_if config.api api in
    let re = part_if config.redirects redirects ++ (up ++ one) in
    let ha = part_if config.haste haste ++ re in
    let so = part_if config.socket socket ++ ha in
    ground (
      arith,
      any_nil-append clients (part_if config.loops loops) so,
      any_nil-append clients (part_if config.socket socket) ha,
      any_nil-append clients (part_if config.haste haste) re,
      any_nil-append clients (part_if config.redirects redirects) (up ++ one),
      any_nil-append clients up one,
      any_nil-part_if clients config.loops loops,
      any_nil-part_if clients config.socket socket,
      any_nil-part_if clients config.haste haste,
      any_nil-part_if clients config.redirects redirects,
      any_nil-part_if clients config.uploader uploader,
      any_nil-part_if clients config.api api,
    )
