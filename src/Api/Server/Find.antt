-- ===== src/Api/Server/Find.antt =====
-- Which route the server finds for a request: a registered one, in the router that it belongs to.
use mathlib.Core.List.{append_assoc, append-nil}
use mathlib.Core.Path.{subst}
use potat_api.Base.{
  arith, sym, ℕ, zero, suc, ◌≡◌, refl, ◌⊎◌, inl, inr, String, Bool, true, false, not, some, List,
  [], ◌∷◌, ◌++◌, map, All, filter, get_elem?, IsIn, IsIn-get_elem?, IsIn-append, All-append_inv,
  IsIn-filter, IsIn-filter_holds, IsIn-map, All-map_inv, All-halves, Bool-cases, some_inj,
}
use potat_api.Http.{Request}
use potat_api.Api.Server.{
  Route, Server, register_route, register_routes, new_server, all_routes, pattern_of, patterns,
  Match, found_at, method_mismatch, no_match, Mux,
}

not-true : {b : Bool} → not b ≡ true → false ≡ b
not-true {b} h = ground arith

module _ {H : Type 0} where
  abbrev is_open : Route H → Bool
  is_open route = not route.use_auth

  -- The subrouter gets the routes with authentication and the router the others, each in the order
  -- of the registry.
  register_routes-filter :
      (routes : List (Route H)) (a : Server H)
      → register_routes routes a ≡ record {
        router = a.router ++ filter is_open routes;
        authed_router = a.authed_router ++ filter (λ x. x.use_auth) routes;
      }
  unfolding register_routes register_route
  register_routes-filter [] a = simp append-nil
  register_routes-filter (x ∷ routes) a = elim (Bool-cases x.use_auth) [
    | inl auth ↦ simp (
      auth,
      register_routes-filter routes (record a { authed_router = a.authed_router ++ x ∷ [] }),
      append_assoc,
    )
    | inr open' ↦ simp (
      open',
      register_routes-filter routes (record a { router = a.router ++ x ∷ [] }),
      append_assoc,
    )
  ]

  pub all_routes-register_routes :
      (routes : List (Route H))
      → all_routes (register_routes routes new_server)
        ≡ map (λ x. (true, x)) (filter (λ x. x.use_auth) routes)
          ++ map (λ x. (false, x)) (filter is_open routes)
  unfolding all_routes
  all_routes-register_routes routes = rw (register_routes-filter routes new_server) refl

  get_elem?-patterns :
      (routes : List (Bool × Route H)) (i : ℕ) (p : String × String)
      → get_elem? (patterns routes) i ≡ some p
      → (x : Bool × Route H) × (get_elem? routes i ≡ some x) × (pattern_of x.1 ≡ p)
  get_elem?-patterns [] i p e = absurd (cc)
  get_elem?-patterns ((authed, x) ∷ routes) zero p e = ((authed, x), refl, some_inj e)
  get_elem?-patterns ((authed, x) ∷ routes) (suc i) p e = get_elem?-patterns routes i p e

  -- No route fits a request.
  abbrev pub IsForeign : Mux → Request → List (Route H) → Type 0
  IsForeign mux req routes = All (λ x. mux.fits (pattern_of x) req ≡ false) routes

  module _ (mux : Mux) (req : Request) where
    abbrev pub Misses : Bool × Route H → Type 0
    Misses x = mux.fits (pattern_of x.1) req ≡ false

    All-patterns :
        (routes : List (Bool × Route H))
        → All (λ p. mux.fits p req ≡ false) (patterns routes)
        → All Misses routes
    All-patterns [] h = tt
    All-patterns ((authed, x) ∷ routes) (one, h) = (one, All-patterns routes h)

    -- If the router finds nothing then no registered route fits.
    pub match_route-IsForeign :
        (routes : List (Route H))
        → let found =
            mux.match_route (patterns (all_routes (register_routes routes new_server))) req in
          (found ≡ method_mismatch) ⊎ (found ≡ no_match) → IsForeign mux req routes
    match_route-IsForeign routes missed =
        let table = all_routes (register_routes routes new_server) in
        let authed = filter (λ x. x.use_auth) routes in
        let all' : All Misses table =
          All-patterns table (mux.match_route-misses (patterns table) req missed) in
        let (h, k) =
          All-append_inv Misses (map (λ x. (true, x)) authed)
            (map (λ x. (false, x)) (filter is_open routes))
            (rw (all_routes-register_routes routes) at all') in
        All-halves (λ x. x.use_auth) (λ x. mux.fits (pattern_of x) req ≡ false) routes
          (All-map_inv (λ x. (true, x)) Misses authed h)
          (All-map_inv (λ x. (false, x)) Misses (filter is_open routes) k)

    -- A registered route, in the router that it belongs to.
    abbrev pub IsFiled : List (Route H) → Bool × Route H → Type 0
    IsFiled routes x = IsIn x.1 routes × (x.0 ≡ x.1.use_auth)

    IsFiled-IsIn :
        (routes : List (Route H)) (x : Bool × Route H)
        → IsIn x (
            map (λ y. (true, y)) (filter (λ y. y.use_auth) routes)
            ++ map (λ y. (false, y)) (filter is_open routes))
        → IsFiled routes x
    IsFiled-IsIn routes x h =
        elim (IsIn-append x (map (λ y. (true, y)) (filter (λ y. y.use_auth) routes))
          (map (λ y. (false, y)) (filter is_open routes)) h) [
            | inl authed ↦
                let (y, e, there) =
                  IsIn-map (λ y. (true, y)) x (filter (λ z. z.use_auth) routes) authed in
                subst (IsFiled routes) (sym e) (
                  IsIn-filter (λ z. z.use_auth) y routes there,
                  sym (IsIn-filter_holds (λ z. z.use_auth) y routes there),
                )
            | inr open' ↦
                let (y, e, there) = IsIn-map (λ y. (false, y)) x (filter is_open routes) open' in
                subst (IsFiled routes) (sym e) (
                  IsIn-filter is_open y routes there,
                  not-true (IsIn-filter_holds is_open y routes there),
                )
          ]

    -- A route that it finds is registered, fits, and is the subrouter's if it has authentication.
    pub match_route-IsFiled :
        (routes : List (Route H)) (i : ℕ)
        → mux.match_route (patterns (all_routes (register_routes routes new_server))) req
          ≡ found_at i
        → (x : Bool × Route H) × (get_elem? (all_routes (register_routes routes new_server)) i
            ≡ some x)
          × IsFiled routes x
          × (mux.fits (pattern_of x.1) req ≡ true)
    match_route-IsFiled routes i found =
        let table = all_routes (register_routes routes new_server) in
        let (p, at_i, fits) = mux.match_route-fits (patterns table) req i found in
        let (x, there, same) = get_elem?-patterns table i p at_i in
        (
          x,
          there,
          IsFiled-IsIn routes x
              (subst (IsIn x) (all_routes-register_routes routes) (IsIn-get_elem? table i x there)),
          rw same fits,
        )

pub Match-cases :
    (m : Match) → ((i : ℕ) × (m ≡ found_at i)) ⊎ ((m ≡ method_mismatch) ⊎ (m ≡ no_match))
Match-cases (found_at i) = inl (i, refl)
Match-cases method_mismatch = inr (inl refl)
Match-cases no_match = inr (inr refl)
