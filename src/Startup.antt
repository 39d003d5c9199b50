-- ===== src/Startup.antt =====
-- main.go: runWithTimeout, and which clients main makes and which parts it starts with them; and the
-- addresses that InitPostgres, its loadConfig, InitClickhouse and InitRedis (common/db) make of the
-- configuration.
pub mod Laws
pub mod Shutdown
mod Tests
use Prim.Native.String.{◌++◌ as append}
use potat_api.Base.{
  ℕ, zero, suc, String, Bool, true, false, not, ◌&&◌, ◌||◌, Option, none, some, List, [], ◌∷◌, ◌++◌,
  str_eq, if◌then◌else◌,
}

-- What a select of runWithTimeout can see next: a result that some attempt has put into the channel
-- (all attempts share it), or the deadline of the current attempt. An error is its text.
pub data Tick : Type 0 where
  result : Option String → Tick
  deadline : Tick

-- The loop with so many attempts left, which gives the error or none for nil; `none` outside while it
-- still waits.
unfoldable pub attempts : ℕ → List Tick → Option (Option String)
attempts zero ticks = some (some "ping timed out")
attempts (suc n) [] = none
attempts (suc n) (result e ∷ ticks) = some e
attempts (suc n) (deadline ∷ ticks) = attempts n ticks

unfoldable pub run_with_timeout : List Tick → Option (Option String)
unfolding attempts
run_with_timeout ticks = attempts 3 ticks

-- The switches of the configuration.
pub record Config : Type 0 where
  pub api : Bool
  pub loops : Bool
  pub nats : Bool
  pub socket : Bool
  pub haste : Bool
  pub redirects : Bool
  pub uploader : Bool

-- The clients that can be nil.
pub record Clients : Type 0 where
  pub clickhouse : Bool
  pub nats : Bool

-- initClickhouse gives nil for a program with neither the API nor the loops.
unfoldable pub init_clickhouse : Config → Bool
init_clickhouse config = if not config.api && not config.loops then false else true

unfoldable pub make_clients : Config → Clients
unfolding init_clickhouse
make_clients config = record { clickhouse = init_clickhouse config; nats = config.nats }

pub data Part : Type 0 where
  loops : Part
  socket : Part
  haste : Part
  redirects : Part
  uploader : Part
  api : Part

abbrev pub part_if : Bool → Part → List Part
part_if b p = if b then p ∷ [] else []

-- What main starts, in its order.
unfoldable pub started_parts : Config → List Part
started_parts config =
    part_if config.loops loops
    ++ (part_if config.socket socket
        ++ (part_if config.haste haste
            ++ (part_if config.redirects redirects
                ++ (part_if config.uploader uploader ++ part_if config.api api))))

-- Whether a part calls a nil client: StartServing of the socket service sets a field of the NATS
-- client; backupPostgres publishes with it and the views are refreshed through ClickHouse; main
-- closes ClickHouse if the API is on.
unfoldable pub calls_nil : Clients → Part → Bool
calls_nil clients loops = not clients.nats || not clients.clickhouse
calls_nil clients socket = not clients.nats
calls_nil clients haste = false
calls_nil clients redirects = false
calls_nil clients uploader = false
calls_nil clients api = not clients.clickhouse

abbrev pub any_nil : Clients → List Part → Bool
any_nil clients [] = false
any_nil clients (p ∷ ps) = calls_nil clients p || any_nil clients ps

unfoldable pub meets_nil_client : Config → Bool
unfolding make_clients started_parts calls_nil
meets_nil_client config = any_nil (make_clients config) (started_parts config)

-- `config.Postgres`
pub record Postgres : Type 0 where
  pub user : String
  pub password : String
  pub host : String
  pub port : String
  pub database : String

abbrev pub or_default : String → String → String
or_default s d = if str_eq s "" then d else s

-- The connection string of loadConfig.
unfoldable pub load_config : Postgres → String
load_config config = append "postgres://" (
    append (or_default config.user "postgres") (
      append ":" (
        append config.password (
          append "@" (
            append (or_default config.host "localhost") (
              append ":" (
                append (or_default config.port "5432")
                  (append "/" (or_default config.database "postgres")))))))))

-- `config.Clickhouse`, as InitClickhouse reads it, and the address, user and password that it opens.
pub record Clickhouse : Type 0 where
  pub host : String
  pub port : String
  pub user : String
  pub password : String

unfoldable pub clickhouse_options : Clickhouse → String × String × String
clickhouse_options config = (
  append (or_default config.host "localhost") (append ":" (or_default config.port "9000")),
  or_default config.user "default",
  config.password,
)

-- The address of InitRedis.
unfoldable pub init_redis : String → String → String
init_redis host port = append (or_default host "localhost") (append ":" (or_default port "6379"))
