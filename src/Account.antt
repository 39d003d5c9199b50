-- ===== src/Account.antt =====
-- getAuthenticatedUser, getChannelState and parseMetadata of api/routes/get/me.go, with the types of
-- common/types.go. What json.Unmarshal makes of the metadata is a parameter; a panic is none.
pub mod Batch
pub mod Lookup
pub mod Laws
mod Tests
use potat_api.Base.{
  ℕ, String, Bool, Option, none, some, List, [], ◌∷◌, Reply, value, absent, fault, str_eq,
  if◌then◌else◌,
}
use potat_api.Base.Int.{ℤ}
use potat_api.Http.{Writer}
use potat_api.Api.{generic_response}
use potat_api.Channels.{Channel, Server, get_channel_by_id}

-- `UserConnection`; the metadata is JSON text.
pub record UserConnection : Type 0 where
  pub platform : String
  pub username : String
  pub display : String
  pub user_id : String
  pub pfp : String
  pub meta : String
  pub id : ℤ

-- `UserSettings`
pub record UserSettings : Type 0 where
  pub language : String
  pub ignore_dropped : Bool
  pub color_responses : Bool
  pub no_reply : Bool
  pub is_bot : Bool
  pub is_selfbot : Bool

-- `User`
pub record User : Type 0 where
  pub first_seen : String
  pub username : String
  pub display : String
  pub settings : UserSettings
  pub connections : List UserConnection
  pub id : ℤ
  pub level : ℤ

-- `TwitchRoles`
pub record TwitchRoles : Type 0 where
  pub is_staff : Bool
  pub is_partner : Bool
  pub is_affiliate : Bool

-- `TwitchUserMeta`
pub record TwitchUserMeta : Type 0 where
  pub color : String
  pub roles : TwitchRoles

-- `StvUserMeta`
pub record StvUserMeta : Type 0 where
  pub paint_id : String
  pub roles : List String

-- `SiteUserData`
pub record SiteUserData : Type 0 where
  pub name : String
  pub twitch_pfp : String
  pub stv_pfp : String
  pub chat_color : String
  pub user_paint : String
  pub join_state : String

-- `AuthorizedUserResponse`: the data, and the message of the one error, if there is any.
pub record AuthorizedUserResponse : Type 0 where
  pub users : List SiteUserData
  pub error : Option String

-- `var connection common.UserConnection`
abbrev pub no_connection : UserConnection
no_connection = record {
  platform = "";
  username = "";
  display = "";
  user_id = "";
  pfp = "";
  meta = "";
  id = ℤ.pos 0;
}

-- json.Unmarshal into a zero value: what it fills before it fails stays there.
pub record Decoder : Type 0 where
  pub twitch_meta : String → TwitchUserMeta
  pub stv_meta : String → StvUserMeta

-- Errors are only logged.
unfoldable pub parse_metadata : Decoder → String → String → TwitchUserMeta × StvUserMeta
parse_metadata dec twitch stv = (dec.twitch_meta twitch, dec.stv_meta stv)

-- The loop over the connections: 7TV's and Twitch's.
unfoldable pub pick_connections :
    List UserConnection → UserConnection → UserConnection → UserConnection × UserConnection
pick_connections [] stv twitch = (stv, twitch)
pick_connections (con ∷ cons) stv twitch =
    let as_stv = pick_connections cons con twitch in
    let as_twitch = pick_connections cons stv con in
    let as_other = pick_connections cons stv twitch in
    if str_eq con.platform "STV"
    then as_stv
    else if str_eq con.platform "TWITCH"
    then as_twitch
    else as_other

abbrev pub state_of : Reply Channel → String
state_of (value channel) = channel.state
state_of absent = "NEVER"
state_of fault = "NEVER"

-- `none` where the context has no Postgres client.
unfoldable pub get_channel_state : Option Server → String → String → String
get_channel_state none channel_id platform = "NEVER"
get_channel_state (some server) channel_id platform =
    state_of (get_channel_by_id server channel_id platform)

unfoldable pub refuse :
    String → String → Writer AuthorizedUserResponse → Writer AuthorizedUserResponse
unfolding generic_response
refuse message took w = generic_response 401 (record { users = []; error = some message }) took w

module _ (dec : Decoder) (postgres : Option Server) where
  unfoldable pub site_user : User → UserConnection → UserConnection → SiteUserData
  unfolding parse_metadata get_channel_state
  site_user user stv twitch =
      let (twitch_meta, stv_meta) = parse_metadata dec twitch.meta stv.meta in
      record {
        name = user.display;
        twitch_pfp = twitch.pfp;
        stv_pfp = stv.pfp;
        chat_color = twitch_meta.color;
        user_paint = stv_meta.paint_id;
        join_state = get_channel_state postgres twitch.user_id "TWITCH";
      }

  -- From the check of the Twitch connection on.
  unfoldable pub show_user :
      User
      → UserConnection × UserConnection
      → String
      → Writer AuthorizedUserResponse
      → Writer AuthorizedUserResponse
  unfolding refuse generic_response
  show_user user (stv, twitch) took w =
      if str_eq twitch.user_id ""
      then refuse "User Twitch connection not found" took w
      else generic_response 200 (record { users = site_user user stv twitch ∷ []; error = none })
          took w

  -- From the check of the connections on.
  unfoldable pub connected :
      User
      → List UserConnection
      → String
      → Writer AuthorizedUserResponse
      → Writer AuthorizedUserResponse
  unfolding refuse
  connected user [] took w = refuse "User connections not found" took w
  connected user (con ∷ cons) took w =
      show_user user (pick_connections (con ∷ cons) no_connection no_connection) took w

  -- `none` where the context has no user.
  unfoldable pub get_authenticated_user :
      Option User → String → Writer AuthorizedUserResponse → Writer AuthorizedUserResponse
  unfolding refuse
  get_authenticated_user none took w = refuse "Unauthorized" took w
  get_authenticated_user (some user) took w = connected user user.connections took w
