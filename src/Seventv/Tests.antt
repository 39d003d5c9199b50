-- ===== src/Seventv/Tests.antt =====
-- The query for two users.
use potat_api.Base.{◌≡◌, refl, [], ◌∷◌}
use potat_api.Durations.{join}
use potat_api.Seventv.{stv_query, query_part}

two_users :
    stv_query ("7" ∷ "8" ∷ [])
    ≡ "{u7:userByConnection(platform:TWITCH id:\"7\"){id avatar_url} u8:userByConnection(platform:TWITCH id:\"8\"){id avatar_url}}"
unfolding stv_query query_part join
two_users = refl
