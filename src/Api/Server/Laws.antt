-- ===== src/Api/Server/Laws.antt =====
-- What becomes of a request to the API: which route it is for, and what stands before its handler.
use potat_api.Base.{
  ℕ, ◌≡◌, refl, ◌⊎◌, inl, inr, String, true, false, Option, none, some, List, IsIn, Reply, value,
  Bool-cases, Option-cases, str_eq, if◌then◌else◌,
}
use potat_api.Base.Int.{ℤ}
use potat_api.Http.{Request, Writer, header, or_code, http_error, write_header}
use potat_api.Api.{generic_response}
use potat_api.Api.Server.{
  Context, Route, register_routes, new_server, all_routes, pattern_of, patterns, Mux, RouteHandler,
  serve_route, serve_found, serve,
}
use potat_api.Middleware.RateLimit.{
  Counters, Formats, Token, client_ip, get_ip_token, limit_headers, rate_limiter,
}
use potat_api.Middleware.Auth.{Authenticator, remove_first, send_unauthorized, teapot}
use potat_api.Middleware.Auth.Laws.{IsUnknown, dynamic_auth_sound}
use potat_api.Api.Server.Find.{IsForeign, match_route-IsForeign, match_route-IsFiled, Match-cases}

module _ (r : Counters) {J User : Type 0} (f : Formats) (secret : String)
    (refusal : ℕ → Writer J → Writer J) (verify_jwt : String → Option ℤ)
    (user_by_id : ℤ → Reply User) (req : Request) where
  open r use {State}

  -- The authenticator of StartServing.
  abbrev pub authenticator : Authenticator J
  authenticator = record { secret = secret; unauthorized = some refusal }

  abbrev pub injected : Context User
  injected = record { postgres = true; redis = true; clickhouse = true; user = none }

  abbrev pub token_of : Option ℤ
  token_of = verify_jwt (remove_first "Bearer " (header "Authorization" req.headers))

  -- The handler of a route without authentication is run. One with it is run for the user that the
  -- table has for the id in a valid token, and else the request is refused with 418.
  abbrev pub Handled :
      Route (RouteHandler User J State) → Writer J → State → Writer J × State → Type 0
  Handled x w s result =
      if x.use_auth
      then ((id : ℤ) × (u : User) × (token_of ≡ some id)
          × (user_by_id id ≡ value u)
          × (result ≡ x.handler (record injected { user = some u }) req w s))
        ⊎ (((str_eq (header "Authorization" req.headers) "" ≡ true)
              ⊎ IsUnknown true user_by_id token_of)
            × (result ≡ (refusal teapot w, s)))
      else result ≡ x.handler injected req w s

  serve_route-Handled :
      (x : Route (RouteHandler User J State)) (w : Writer J) (s : State)
      → Handled x w s
          (serve_route r f authenticator verify_jwt user_by_id x.use_auth x injected req w s)
  unfolding serve_route send_unauthorized
  serve_route-Handled x w s = elim (Bool-cases x.use_auth) [
    | inl auth ↦
        rw auth
          (elim (dynamic_auth_sound authenticator true verify_jwt user_by_id
            (λ u. x.handler (record injected { user = some u })) req w s) [
              | inl (id, u, valid, there, same) ↦ inl (id, u, valid, there, rw same refl)
              | inr (why, same) ↦ inr (why, rw same refl)
            ])
    | inr open' ↦ rw open' refl
  ]

  -- The limiter of the server answers by itself.
  abbrev pub Limited : Writer J → State → Writer J × State → Type 0
  Limited w s result =
      let (token, s₁) = get_ip_token r (client_ip req) 100 60 s in
      (result.1 ≡ s₁)
      × (((token ≡ none) × (result.0 ≡ http_error "Internal Server Error" 500 w))
          ⊎ ((t : Token) × (token ≡ some t)
              × (t.allowed ≡ false)
              × (result.0.status ≡ some (or_code w.status 429))))

  -- The limiter counts the request and hands it on, and the route deals with it.
  abbrev pub Admitted :
      Route (RouteHandler User J State) → Writer J → State → Writer J × State → Type 0
  Admitted x w s result =
      let (token, s₁) = get_ip_token r (client_ip req) 100 60 s in
      (t : Token) × (token ≡ some t)
      × (t.allowed ≡ true)
      × Handled x (limit_headers r f 100 60 t w) s₁ result

  serve_found_lem :
      (x : Route (RouteHandler User J State)) (w : Writer J) (s : State)
      → let result = serve_found r f authenticator verify_jwt user_by_id x.use_auth x req w s in
        Limited w s result ⊎ Admitted x w s result
  unfolding serve_found rate_limiter limit_headers
  serve_found_lem x w s = elim (Option-cases (get_ip_token r (client_ip req) 100 60 s).0) [
    | inl no_token ↦
        inl (rw (no_token, rate_limiter) refl, inl (no_token, rw (no_token, rate_limiter) refl))
    | inr (t, token) ↦ elim (Bool-cases t.allowed) [
      | inl yes' ↦ inr (
        t,
        token,
        yes',
        rw (token, rate_limiter, yes')
            (serve_route-Handled x (limit_headers r f 100 60 t w)
              (get_ip_token r (client_ip req) 100 60 s).1),
      )
      | inr no' ↦ inl (
        rw (token, rate_limiter, no') refl,
        inr (t, token, no', rw (token, rate_limiter, no') (unfold http_error in refl)),
      )
    ]
  ]

  -- What a request to the server comes to.
  abbrev pub Served :
      Mux
      → J
      → String
      → List (Route (RouteHandler User J State))
      → Writer J
      → State
      → Writer J × State
      → Type 0
  Served mux not_found took registry w s result =
      (IsForeign mux req registry
        × ((result ≡ (generic_response 404 not_found took w, s))
            ⊎ (result ≡ (write_header 405 w, s))))
      ⊎ ((x : Route (RouteHandler User J State)) × IsIn x registry
          × (mux.fits (pattern_of x) req ≡ true)
          × (Limited w s result ⊎ Admitted x w s result))

  -- A request that no registered route fits is answered 404 or 405, without being counted. Any other
  -- is counted once for its address, and the limiter answers it with 500 or 429, or hands it on to a
  -- registered route that fits: the handler of a route without authentication is run, with the
  -- clients in its context, and that of a route with it only for the user that the table has for the
  -- id in a valid token; without such a user the answer is the refusal 418.
  pub serve-Served :
      (mux : Mux) (not_found : J) (took : String)
      (registry : List (Route (RouteHandler User J State))) (w : Writer J) (s : State)
      → Served mux not_found took registry w s
          (serve r f authenticator verify_jwt user_by_id mux not_found took registry req w s)
  unfolding serve
  serve-Served mux not_found took registry w s =
      let table = all_routes (register_routes registry new_server) in
      elim (Match-cases (mux.match_route (patterns table) req)) [
        | inl (i, found) ↦
            let ((authed, x), there, (registered, same), fits) =
              match_route-IsFiled mux req registry i found in
            inr (x, registered, fits, rw (found, there, same) (serve_found_lem x w s))
        | inr missed ↦ inl (
          match_route-IsForeign mux req registry missed,
          elim missed [
            | inl mismatch ↦ inr (rw mismatch refl)
            | inr nothing ↦ inl (rw nothing refl)
          ],
        )
      ]
