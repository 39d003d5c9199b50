-- ===== src/Account/Laws.antt =====
-- Which connections the own account shows, and when it is refused.
use potat_api.Base.{
  ◌≡◌, ◌≢◌, ◌⊎◌, inl, inr, refl, String, true, false, Option, none, some, List, [], ◌∷◌, ◌++◌,
  str_eq, eq_iff, if◌then◌else◌, Bool-cases, arith,
}
use potat_api.Http.{Writer, json}
use potat_api.Api.{generic_response}
use potat_api.Account.{
  UserConnection, User, Decoder, AuthorizedUserResponse, no_connection, pick_connections, refuse,
  site_user, show_user, parse_metadata, get_channel_state, connected, get_authenticated_user,
}
use potat_api.Channels.{Server}

-- The last connection of a platform, or the empty one.
unfoldable pub last_of : String → List UserConnection → UserConnection → UserConnection
last_of platform [] found = found
last_of platform (con ∷ cons) found =
    last_of platform cons (if str_eq con.platform platform then con else found)

not_both : (p : String) → str_eq p "STV" ≡ true → str_eq p "TWITCH" ≡ false
not_both p h = rw ((eq_iff p "STV").0 h) refl

pick_connections-last :
    (cons : List UserConnection) (stv twitch : UserConnection)
    → pick_connections cons stv twitch ≡ (last_of "STV" cons stv, last_of "TWITCH" cons twitch)
unfolding pick_connections last_of
pick_connections-last [] stv twitch = refl
pick_connections-last (con ∷ cons) stv twitch = elim (Bool-cases (str_eq con.platform "STV")) [
  | inl seven ↦ rw (seven, not_both con.platform seven, pick_connections-last cons con twitch) refl
  | inr other ↦ elim (Bool-cases (str_eq con.platform "TWITCH")) [
    | inl purple ↦ rw (other, purple, pick_connections-last cons stv con) refl
    | inr neither ↦ rw (other, neither, pick_connections-last cons stv twitch) refl
  ]
]

-- The request is refused: 401, no data, and this message.
abbrev pub Denied : String → Writer AuthorizedUserResponse → Writer AuthorizedUserResponse → Type 0
Denied message w w' =
    (w'.status ≡ some 401)
    × (w'.chunks ≡ w.chunks ++ json (record { users = []; error = some message }) ∷ [])

refuse-Denied :
    (message took : String) (w : Writer AuthorizedUserResponse)
    → w.status ≡ none
    → Denied message w (refuse message took w)
unfolding refuse generic_response
refuse-Denied message took w blank = (rw blank refl, refl)

module _ (dec : Decoder) (postgres : Option Server) where
  -- The user's data is sent with the status 200: the display name, the picture of each connection,
  -- the colour from the metadata of Twitch, the paint from that of 7TV, and the state of the Twitch
  -- channel.
  abbrev pub Shown :
      User
      → UserConnection
      → UserConnection
      → Writer AuthorizedUserResponse
      → Writer AuthorizedUserResponse
      → Type 0
  Shown u stv twitch w w' =
      (w'.status ≡ some 200)
      × (w'.chunks
          ≡ w.chunks
            ++ json (record {
              users =
                  record {
                    name = u.display;
                    twitch_pfp = twitch.pfp;
                    stv_pfp = stv.pfp;
                    chat_color = (dec.twitch_meta twitch.meta).color;
                    user_paint = (dec.stv_meta stv.meta).paint_id;
                    join_state = get_channel_state postgres twitch.user_id "TWITCH";
                  }
                  ∷ [];
              error = none;
            })
              ∷ [])

  -- What is answered to a user with these connections.
  abbrev pub Answered :
      User
      → List UserConnection
      → Writer AuthorizedUserResponse
      → Writer AuthorizedUserResponse
      → Type 0
  Answered u cons w w' =
      ((cons ≡ []) × Denied "User connections not found" w w')
      ⊎ (((cons ≢ [])
            × ((last_of "TWITCH" cons no_connection).user_id ≡ "")
            × Denied "User Twitch connection not found" w w')
          ⊎ (((last_of "TWITCH" cons no_connection).user_id ≢ "")
              × Shown u (last_of "STV" cons no_connection) (last_of "TWITCH" cons no_connection) w
                  w'))

  connected-Answered :
      (u : User) (cons : List UserConnection) (took : String) (w : Writer AuthorizedUserResponse)
      → w.status ≡ none
      → Answered u cons w (connected dec postgres u cons took w)
  unfolding connected show_user
  connected-Answered u [] took w blank =
      inl (refl, refuse-Denied "User connections not found" took w blank)
  connected-Answered u (con ∷ cons) took w blank =
      let same = pick_connections-last (con ∷ cons) no_connection no_connection in
      let twitch = last_of "TWITCH" (con ∷ cons) no_connection in
      elim (Bool-cases (str_eq twitch.user_id "")) [
        | inl empty ↦ inr (
            inl (
              (λ h. cc h),
              (eq_iff twitch.user_id "").0 empty,
              rw (same, empty) (refuse-Denied "User Twitch connection not found" took w blank),
            ))
        | inr given ↦ inr (
            inr (
              (λ h. ground (arith, eq_iff twitch.user_id "")),
              rw (same, given)
                  (unfold generic_response site_user parse_metadata in (rw blank refl, refl)),
            ))
      ]

  -- The own account is answered in one of four ways: 401 without a user in the context; 401 for a
  -- user without connections; 401 if the last connection to Twitch has no id or there is none; and
  -- otherwise 200 with the data of the last 7TV connection (an empty one where there is none) and
  -- the last Twitch connection.
  pub get_authenticated_user-answers :
      (user : Option User) (took : String) (w : Writer AuthorizedUserResponse)
      → w.status ≡ none
      → ((user ≡ none) × Denied "Unauthorized" w (get_authenticated_user dec postgres user took w))
        ⊎ ((u : User) × (user ≡ some u)
            × Answered u u.connections w (get_authenticated_user dec postgres user took w))
  unfolding get_authenticated_user
  get_authenticated_user-answers none took w blank =
      inl (refl, refuse-Denied "Unauthorized" took w blank)
  get_authenticated_user-answers (some u) took w blank =
      inr (u, refl, connected-Answered u u.connections took w blank)
