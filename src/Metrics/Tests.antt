-- ===== src/Metrics/Tests.antt =====
-- Two requests of one series.
use potat_api.Base.{◌≡◌, refl, [], ◌∷◌, some, List}
use potat_api.Metrics.{observe_metrics, observe_inbound_requests, gauge_socket_connections}
use potat_api.Metrics.Laws.{Use, request, sockets, use_all, times}

abbrev uses : List Use
uses =
    request "api" "/help" "1.2.3.4" "GET" "200" "MISS"
    ∷ sockets 3
    ∷ request "api" "/help" "1.2.3.4" "GET" "200" "HIT"
    ∷ request "api" "/help" "1.2.3.4" "GET" "200" "HIT"
    ∷ []

last_gauge : (use_all uses observe_metrics).socket_gauge ≡ some 3
unfolding observe_inbound_requests gauge_socket_connections
last_gauge = refl

two_hits : times ("api" ∷ "/help" ∷ "1.2.3.4" ∷ "GET" ∷ "200" ∷ "HIT" ∷ []) uses ≡ 2
two_hits = refl
