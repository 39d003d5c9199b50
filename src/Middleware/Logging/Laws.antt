-- ===== src/Middleware/Logging/Laws.antt =====
-- That logging does not change the response, and when it tells the truth about it.
use potat_api.Base.{◌≡◌, ◌⊎◌, Bool, true, false, not, ◌&&◌, none, List, [], ◌∷◌, str_eq, lookup}
use potat_api.Middleware.Logging.{
  Call, set, code, body, LoggingWriter, client_status, client_headers,
}

module _ {J : Type 0} where
  -- WriteHeader is called at most once, and not after the body has begun; and the header X-Cache-Hit
  -- is not set after either.
  abbrev pub is_orderly : Bool → List (Call J) → Bool
  is_orderly sent [] = true
  is_orderly sent (set k v ∷ cs) =
      let rest = is_orderly sent cs in not (sent && str_eq k "X-Cache-Hit") && rest
  is_orderly sent (code n ∷ cs) = let rest = is_orderly true cs in not sent && rest
  is_orderly sent (body c ∷ cs) = is_orderly true cs

  abbrev pub calls_write_header : List (Call J) → Bool
  calls_write_header [] = false
  calls_write_header (set k v ∷ cs) = calls_write_header cs
  calls_write_header (code n ∷ cs) = true
  calls_write_header (body c ∷ cs) = calls_write_header cs

  -- The client's status is the recorded one and its X-Cache-Hit the one in the map, and nothing is
  -- sent before `sent`.
  abbrev pub Agrees : Bool → LoggingWriter J → Type 0
  Agrees sent lrw =
      (client_status lrw.inner.sent ≡ lrw.status_code)
      × (lookup "X-Cache-Hit" (client_headers lrw.inner.live lrw.inner.sent)
          ≡ lookup "X-Cache-Hit" lrw.inner.live)
      × ((sent ≡ true) ⊎ (lrw.inner.sent ≡ none))
