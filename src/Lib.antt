-- ===== src/Lib.antt =====
-- potat-api: one Go program that runs several small HTTP services over one PostgreSQL and one Redis
-- server: an API with login and users (api), a paste service (haste), a URL shortener (redirects), a
-- file host (uploader) and a WebSocket relay (socket), and the background sweeps of common/db.
--
-- How the parts interact. Every HTTP service puts the middleware of api/middleware around its
-- handlers. The handlers ask Redis first, then PostgreSQL, and leave a goroutine behind that fills
-- the cache. The socket service relays what the broker publishes to every connected client. The
-- sweeps renew the Twitch tokens that the login and the users' connections rest on.
--
-- Files, with the code that they model (paths from the repository's root):
--   Base, Base/*        lists, text, integers and splits that the other files share
--   Http                what the handlers use of net/http: Request, and ResponseWriter as a state
--   Services            the interface Cache, Redis as the services use it; Services/Memory is one. All
--                       services and the limiters share one Redis, and one space of keys: what is
--                       said of a cached key holds while nothing else writes under it, and
--                       Middleware/RateLimit/Shared puts a limiter and a cache into one server
--   Socket              socket/hub.go, socket/client.go. Hub has hub.run's three cases, System the
--                       interleaved events of all goroutines as a step function with reachability,
--                       Pump the read and write pumps of one client, Entry the handler before them
--   Middleware          RateLimit is api/middleware/ratelimit.go (the Lua script, getIPToken, the
--                       handler), Auth is api/middleware/authenticate.go with its tokens in Jwt,
--                       Logging is logging.go
--   Haste               haste/haste.go with GetHaste and NewHaste: Get has handleGet and
--                       handleGetRaw, Post has handlePost and chooseKey, Service all of it over time,
--                       Static the routes with the static files
--   Redirects           redirects/redirects.go and api/routes/post/redirects.go with their four
--                       queries: Clean, Get (getRedirect), Create (createRedirect), Server the
--                       route with its limiter, and Round from the one service to the other
--   Uploader            uploader/uploader.go with its four queries: Handle has the handlers, Stale
--                       what a late goroutine does after a deletion, Server the routes, and
--                       Service all of it over time
--   Users               api/routes/get/user.go: Potato (tidyPotatoInfo), Load (loadUser), Route
--                       (getUsers), and Query (GetPotatoData of postgres.go)
--   Help                api/routes/get/help.go
--   Api                 api/api.go: GenericResponse, and in Server the registry of routes and the
--                       server with the middleware around them, InjectDatabases included
--   Login               api/routes/get/login.go: the handler and replyDeny with its goroutines. Desk
--                       is the specification that they refine, Safety counts the uses of a state
--   Account             api/routes/get/me.go, and of postgres.go BatchUserConections in Batch and the
--                       lookups of a user in Lookup
--   Channels            getChannelByType and its queries in common/db/postgres.go; Blocks has the rows
--                       of the blocks and their split
--   Broker              handleMessage and Publish of common/utils/broker.go; Relay puts it in front of
--                       Socket, and Subscribe has the goroutine that subscribes, and BridgeRequest
--   Tokens              Helix is the token checks of common/utils/requests.go and the check of
--                       api/routes/get/login.go, Sweep the token sweeps of common/db/loops.go
--   Dumps, Duels, Usage, Views
--                       the other sweeps of common/db/loops.go: the back-ups, decrementDuels with Scan
--                       of common/db/redis.go, the statements on PostgreSQL, and the views of badges and
--                       colors
--   Schedule            StartLoops of common/db/loops.go
--   Seventv             BatchLoadStvData of common/utils/requests.go
--   Durations, Random   Humanize and RandomString of common/utils/misc.go
--   Startup             runWithTimeout and the clients of main.go, and the addresses of the databases;
--                       Shutdown is how main ends
--   Configuration       common/utils/config.go
--   Metrics             common/utils/metrics.go
--   Emote               common/normalemote.go: Url, Ids, Normalize
--
-- How code becomes definitions. A handler is a function of the request's parts, a Writer and the
-- state of the services, and gives back the Writer, the state and the tasks that its goroutines will
-- run. An error is a case of Reply (a value, nothing there, any other error) or of an Option; a panic
-- is none. A Go map is a list of keys or a function. Redis, PostgreSQL, Twitch, the JWT library, the
-- hash sums and content sniffing are not code of this repository: they are parameters, records of
-- operations with what their documentation says of them; the Tests and Memory files give each record
-- a concrete server in memory. What a failed write to a client does is left out, and outside
-- Middleware/Logging so are log and metric calls. The body that http.Redirect writes and the line
-- break of http.Error are left out of the Writer, which does not tell headers that are set before the
-- status is sent from later ones; no handler sets later ones, and Middleware/Logging has its own
-- Response for handlers that do.
--
-- Bounds. The loops that draw random keys take the drawn keys as a list; a list that runs out is a
-- loop that goes on, which is a result of its own. Scan and the rounds of decrementDuels run on fuel,
-- one unit for each page and round, and as many as there are pages are enough. All other recursion is
-- structural. Numbers are natural numbers or the integers of Base/Int; no operation that is modelled
-- comes near 2^63.
--
-- Not modelled: the start of the HTTP servers and the signals in main.go, the registry of Prometheus,
-- the logger, and the decoding of the configuration. They are calls of libraries with no logic of
-- their own.
pub mod Account
pub mod Api
pub mod Base
pub mod Broker
pub mod Channels
pub mod Configuration
pub mod Duels
pub mod Dumps
pub mod Durations
pub mod Haste
pub mod Help
pub mod Http
pub mod Login
pub mod Metrics
pub mod Emote
pub mod Middleware
pub mod Random
pub mod Redirects
pub mod Schedule
pub mod Services
pub mod Seventv
pub mod Socket
pub mod Startup
pub mod Tokens
pub mod Uploader
pub mod Usage
pub mod Users
pub mod Views
