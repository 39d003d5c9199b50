-- ===== src/Startup/Shutdown.antt =====
-- How main of main.go ends: the select over the servers and the signals, and what is closed then. A
-- call of Panicln ends main, and the deferred calls still run.
use potat_api.Base.{
  ◌≡◌, Bool, true, false, not, ◌&&◌, ◌||◌, List, [], ◌∷◌, ◌++◌, if◌then◌else◌, arith,
}
use potat_api.Startup.{Config, make_clients}

-- What the select of main gets: a server that has ended, or a signal.
pub data Stop : Type 0 where
  server_error : Stop
  shutdown : Stop

pub data Service : Type 0 where
  clickhouse : Service
  redis : Service
  postgres : Service
  nats : Service

-- Which of the calls that close a client succeed.
pub record Closes : Type 0 where
  pub clickhouse : Bool
  pub redis : Bool
  pub nats : Bool

-- What was closed, in order, and whether main has panicked.
pub record Ended : Type 0 where
  pub closed : List Service
  pub panicked : Bool

unfoldable pub close_postgres : List Service → Ended
close_postgres closed = record { closed = closed ++ postgres ∷ []; panicked = false }

unfoldable pub close_redis : Closes → List Service → Ended
unfolding close_postgres
close_redis ok closed =
    if ok.redis
    then close_postgres (closed ++ redis ∷ [])
    else record { closed = closed; panicked = true }

-- After a signal.
unfoldable pub close_all : Config → Closes → Ended
unfolding close_redis
close_all config ok =
    if config.api
    then (if ok.clickhouse
        then close_redis ok (clickhouse ∷ [])
        else record { closed = []; panicked = true })
    else close_redis ok []

abbrev pub on_stop : Stop → Config → Closes → Ended
on_stop server_error config ok = record { closed = []; panicked = true }
on_stop shutdown config ok = close_all config ok

-- The deferred call that drains the broker's connection.
unfoldable pub drain : Config → Closes → Ended → Ended
drain config ok end =
    if not config.nats
    then end
    else if ok.nats
    then record end { closed = end.closed ++ nats ∷ [] }
    else record end { panicked = true }

unfoldable pub main_end : Stop → Config → Closes → Ended
unfolding close_all drain
main_end stop config ok = drain config ok (on_stop stop config ok)

abbrev pub eq_service : Service → Service → Bool
eq_service clickhouse clickhouse = true
eq_service redis redis = true
eq_service postgres postgres = true
eq_service nats nats = true
eq_service _ _ = false

abbrev pub closes : Service → List Service → Bool
closes s [] = false
closes s (x ∷ xs) = eq_service s x || closes s xs

abbrev pub is_closed : Service → Ended → Bool
is_closed s end = closes s end.closed

abbrev pub is_shutdown : Stop → Bool
is_shutdown server_error = false
is_shutdown shutdown = true

-- Whether the closing gets to Redis.
abbrev pub reaches_redis : Stop → Config → Closes → Bool
reaches_redis stop config ok = is_shutdown stop && (not config.api || ok.clickhouse)

-- NATS is drained whenever it is used, however the program ends. The other clients are closed only
-- after a signal: ClickHouse if the API is on, then Redis and PostgreSQL, as long as every close
-- before succeeds; and main panics unless it got a signal and all that it closes closes.
pub main_end-closes :
    (stop : Stop) (config : Config) (ok : Closes)
    → (is_closed nats (main_end stop config ok) ≡ (config.nats && ok.nats))
      × (is_closed clickhouse (main_end stop config ok)
          ≡ (is_shutdown stop && (config.api && ok.clickhouse)))
      × (is_closed redis (main_end stop config ok) ≡ (reaches_redis stop config ok && ok.redis))
      × (is_closed postgres (main_end stop config ok) ≡ (reaches_redis stop config ok && ok.redis))
      × ((main_end stop config ok).panicked
          ≡ not (reaches_redis stop config ok && (ok.redis && (not config.nats || ok.nats))))
unfolding main_end drain close_all close_redis close_postgres
main_end-closes server_error config ok = ground arith
main_end-closes shutdown config ok = ground arith

-- With the loops and without the API, ClickHouse is connected and never closed.
pub main_end-leaks :
    (stop : Stop) (config : Config) (ok : Closes)
    → config.api ≡ false
    → config.loops ≡ true
    → ((make_clients config).clickhouse ≡ true)
      × (is_closed clickhouse (main_end stop config ok) ≡ false)
unfolding make_clients
main_end-leaks stop config ok off on = ground (arith, main_end-closes stop config ok)
