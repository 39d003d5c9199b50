-- ===== src/Startup/Tests.antt =====
-- A ping whose first attempt fails late, and a configuration with its shutdown.
use potat_api.Base.{◌≡◌, refl, true, false, [], ◌∷◌}
use potat_api.Startup.Shutdown.{
  Closes, shutdown, clickhouse, redis, postgres, main_end, close_all, close_redis, close_postgres,
  drain,
}
use potat_api.Startup.{
  Config, meets_nil_client, make_clients, started_parts, calls_nil, init_clickhouse, init_redis,
  clickhouse_options,
}

abbrev config : Config
config = record {
  api = true;
  loops = false;
  nats = false;
  socket = true;
  haste = true;
  redirects = true;
  uploader = true;
}

without_broker : meets_nil_client config ≡ true
unfolding meets_nil_client make_clients started_parts calls_nil init_clickhouse
without_broker = refl

default_address : init_redis "" "6380" ≡ "localhost:6380"
unfolding init_redis
default_address = refl

abbrev all_close : Closes
all_close = record { clickhouse = true; redis = true; nats = true }

closed_in_order : (main_end shutdown config all_close).closed ≡ clickhouse ∷ redis ∷ postgres ∷ []
unfolding main_end close_all close_redis close_postgres drain
closed_in_order = refl

default_clickhouse :
    clickhouse_options (record { host = "ch"; port = ""; user = ""; password = "p" })
    ≡ ("ch:9000", "default", "p")
unfolding clickhouse_options
default_clickhouse = refl
