-- ===== src/Redirects/Server/Laws.antt =====
-- What the redirect service answers to each request, with the limiter and the cache in one Redis.
use potat_api.Base.{◌+◌, ◌≡◌, String, Bool, true, false, some, []}
use potat_api.Http.{Request, Writer}
use potat_api.Middleware.RateLimit.{Formats, client_ip}
use potat_api.Middleware.RateLimit.Shared.{SharedRedis}
use potat_api.Api.Server.{Mux}
use potat_api.Redirects.{Table}
use potat_api.Redirects.Get.{serve as by_cache}
use potat_api.Redirects.Get.Laws.{Leads}
use potat_api.Redirects.Server.{serve, start_serving}

module _ (m : SharedRedis) {J : Type 0} (f : Formats) (t : Table) (id : Request → String)
    (rows : t.State) where
  open m use {counters, cache, view}

  -- What the client gets, whatever is cached afterwards.
  abbrev pub Sent : String → Writer J → Type 0
  Sent key w = Leads cache t key rows (record { writer = w; spawned = [] })

  module _ (mux : Mux) (req : Request) (w : Writer J) (s : counters.State) where
    abbrev pub reply : Writer J × counters.State
    reply = start_serving m f t id rows mux req w s

    -- By whether the address has room for the request.
    abbrev pub Replies : Bool → Type 0
    Replies true =
        Sent (id req) reply.0
        × (counters.count (client_ip req) reply.1 ≡ counters.count (client_ip req) s + 1)
    Replies false = reply.0.status ≡ some 429
