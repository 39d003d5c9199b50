-- ===== src/Socket/Entry.antt =====
-- The HTTP handler of StartServing in socket/hub.go with isWebSocketRequest, in front of serveWs.
-- Whether the upgrader takes a request is a parameter. Letters of `Connection` outside ASCII are none
-- of those in "upgrade" in lower case.
use potat_api.Base.{
  ℕ, ◌+◌, ◌≡◌, refl, inl, inr, Bool, true, false, ◌&&◌, ◌||◌, List, [], ◌∷◌, codes, map, leb, ◌==◌,
  Bool-cases, if◌then◌else◌,
}
use potat_api.Emote.Url.{lower_code, eq_codes}
use potat_api.Http.{Request, Writer, header, http_error}
use potat_api.Socket.System.{System, serve_ws, step, connect, Reach, later}

-- The letter that a code point folds to: two others than capitals fold to ASCII letters, the long s
-- and the Kelvin sign.
abbrev pub fold_code : ℕ → ℕ
fold_code c =
    if leb b'A' c && leb c b'Z'
    then c + 32
    else if c == 0x17F
    then b's'
    else if c == 0x212A
    then b'k'
    else c

abbrev pub begins_with : List ℕ → List ℕ → Bool
begins_with [] cs = true
begins_with (p ∷ ps) [] = false
begins_with (p ∷ ps) (c ∷ cs) = p == c && begins_with ps cs

abbrev pub has_part : List ℕ → List ℕ → Bool
has_part ps [] = begins_with ps []
has_part ps (c ∷ cs) = begins_with ps (c ∷ cs) || has_part ps cs

unfoldable pub is_web_socket_request : Request → Bool
unfolding header
is_web_socket_request req =
    eq_codes (map fold_code (codes (header "Upgrade" req.headers))) (codes "websocket")
    && has_part (codes "upgrade") (map lower_code (codes (header "Connection" req.headers)))

-- After the upgrade nothing is written to the ResponseWriter; an upgrader that refuses answers by
-- itself.
unfoldable pub handle_request :
    {J : Type 0}
    → (Request → Bool)
    → (Writer J → Writer J)
    → Request
    → Writer J
    → System
    → Writer J × System
unfolding is_web_socket_request
handle_request upgrades answer req w s =
    if is_web_socket_request req
    then (if upgrades req then (w, serve_ws s) else (answer w, s))
    else (http_error "Invalid protocol" 405 w, s)

-- A request joins the relay exactly if it is a WebSocket request that the upgrader takes. Any other
-- leaves the hub and its clients alone, and one that is no WebSocket request is answered 405. Either
-- way the relay stays in a state that it can reach.
pub handle_request-Reach :
    {J : Type 0} (upgrades : Request → Bool) (answer : Writer J → Writer J) (req : Request)
    (w : Writer J) (s : System)
    → Reach s
    → Reach (handle_request upgrades answer req w s).1
      × ((handle_request upgrades answer req w s).1
          ≡ (if is_web_socket_request req && upgrades req then serve_ws s else s))
      × (is_web_socket_request req ≡ false
          → (handle_request upgrades answer req w s).0 ≡ http_error "Invalid protocol" 405 w)
unfolding handle_request step
handle_request-Reach upgrades answer req w s reach = elim (Bool-cases (is_web_socket_request req)) [
  | inr no' ↦ (rw no' reach, rw no' refl, λ h. rw no' refl)
  | inl yes' ↦ elim (Bool-cases (upgrades req)) [
    | inl takes ↦ (
      rw (yes', takes) (later reach connect tt refl),
      rw (yes', takes) refl,
      λ h. absurd (cc (yes', h)),
    )
    | inr refuses ↦ (rw (yes', refuses) reach, rw (yes', refuses) refl, λ h. absurd (cc (yes', h)))
  ]
]
