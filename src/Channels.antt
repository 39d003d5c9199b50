-- ===== src/Channels.antt =====
-- Channels and their blocks: getChannelByType, GetChannelBlocks and GetChannelCommands of
-- common/db/postgres.go, with the types of common/types.go. PostgreSQL is the record Server. Times
-- and JSON values are texts. An error of a query or of one row's Scan is none.
pub mod Blocks
pub mod Laws
mod Tests
use potat_api.Base.{
  ◌≡◌, String, Bool, Option, none, some, List, [], ◌∷◌, length, All, str_eq, Reply, value, absent,
  fault, if◌then◌else◌,
}
use potat_api.Channels.Blocks.{Block, FilteredBlocks, Cell, block_columns, scan_rows, split_blocks}
use potat_api.Base.Int.{ℤ}

-- `ChannelCommand`
pub record ChannelCommand : Type 0 where
  pub created : String
  pub modified : String
  pub help : Option String
  pub name : Option String
  pub run_command : Option String
  pub channel_id : String
  pub trigger : String
  pub response : String
  pub platform : String
  pub user_trigger_ids : List String
  pub user_ignore_ids : List String
  pub cooldown : ℤ
  pub user_id : ℤ
  pub delay : ℤ
  pub use_count : ℤ
  pub command_id : ℤ
  pub reply : Bool
  pub whisper : Bool
  pub announce : Bool
  pub active_offline : Bool
  pub active_online : Bool
  pub active : Bool

-- `AddedByData`
pub record AddedByData : Type 0 where
  pub added_at : String
  pub username : String
  pub id : String

-- `ChannelSettings`
pub record ChannelSettings : Type 0 where
  pub paj_bot : Option String
  pub user_cooldown : Option ℤ
  pub channel_cooldown : Option ℤ
  pub language : String
  pub permission : String
  pub prefix : String
  pub users_blacklisted : List String
  pub no_reply : Bool
  pub first_msg_responses : Bool
  pub whisper_only : Bool
  pub offline_only : Bool
  pub force_language : Bool
  pub silent_errors : Bool
  pub color_responses : Bool

-- `Channel`; a nil pointer is none.
pub record Channel : Type 0 where
  pub blocks : FilteredBlocks
  pub joined_at : Option String
  pub meta : String
  pub commands : Option (List ChannelCommand)
  pub channel_id : String
  pub username : String
  pub platform : String
  pub state : String
  pub added_by : List AddedByData
  pub editors : List String
  pub ambassadors : List String
  pub settings : ChannelSettings

-- The database: the row of `channels` by a column, its value and the platform, with the fields that
-- Scan fills; the rows of a channel's commands, each as it scans; and the rows of its blocks.
pub record Server : Type 0 where
  pub channel_row : String → String → String → Reply Channel
  pub command_rows : String → Option (List (Option ChannelCommand))
  pub block_rows : String → Option (List (List Cell))
  -- A row of a result has one value for each column that the query selects.
  pub block_rows-columns :
      (id : String) (rows : List (List Cell))
      → block_rows id ≡ some rows
      → All (λ row. length row ≡ length block_columns) rows

-- A loop over rows that returns nil at the first one that does not scan.
unfoldable pub collect : {A : Type 0} → List (Option A) → Option (List A)
collect [] = some []
collect (none ∷ rows) = none
collect (some a ∷ rows) = elim (collect rows) [ none ↦ none | some rest ↦ some (a ∷ rest) ]

abbrev pub all_rows : {A : Type 0} → Option (List (Option A)) → Option (List A)
all_rows none = none
all_rows (some rows) = collect rows

abbrev pub or_empty : {A : Type 0} → Option (List A) → List A
or_empty none = []
or_empty (some found) = found

module _ (server : Server) where
  unfoldable pub get_channel_commands : String → Option (List ChannelCommand)
  unfolding collect
  get_channel_commands channel_id = all_rows (server.command_rows channel_id)

  unfoldable pub get_channel_blocks : String → Option (List Block)
  get_channel_blocks channel_id = scan_rows (server.block_rows channel_id)

  -- What getChannelByType does with the row, once both goroutines are done.
  unfoldable pub fill_channel : Channel → Channel
  unfolding get_channel_commands get_channel_blocks split_blocks
  fill_channel channel = record channel {
    commands = some (or_empty (get_channel_commands channel.channel_id));
    blocks = split_blocks (or_empty (get_channel_blocks channel.channel_id));
  }

  abbrev pub filled : Reply Channel → Reply Channel
  filled (value channel) = value (fill_channel channel)
  filled absent = absent
  filled fault = fault

  unfoldable pub get_channel_by_type : String → String → String → Reply Channel
  unfolding fill_channel
  get_channel_by_type val platform chan_type =
      if str_eq chan_type "ID"
      then filled (server.channel_row "channel_id" val platform)
      else if str_eq chan_type "NAME"
      then filled (server.channel_row "username" val platform)
      else fault

  unfoldable pub get_channel_by_name : String → String → Reply Channel
  unfolding get_channel_by_type
  get_channel_by_name username platform = get_channel_by_type username platform "NAME"

  unfoldable pub get_channel_by_id : String → String → Reply Channel
  unfolding get_channel_by_type
  get_channel_by_id channel_id platform = get_channel_by_type channel_id platform "ID"
