-- ===== src/Channels/Tests.antt =====
-- A channel with a row of blocks, as PostgreSQL gives it for a query of four columns.
use potat_api.Base.{◌≡◌, refl, String, false, none, some, List, [], ◌∷◌, length, All, value}
use potat_api.Base.Int.{pos}
use potat_api.Channels.{
  Channel, Server, collect, fill_channel, get_channel_blocks, get_channel_commands,
  get_channel_by_type,
}
use potat_api.Channels.Blocks.{
  Block, Cell, text, number, block_columns, split_blocks, scan_block, scan_blocks,
}
use potat_api.Channels.Laws.{get_channel_by_type-no_blocks}

abbrev raw_channel : Channel
raw_channel = record {
  blocks = record { users = none; commands = none };
  joined_at = none;
  meta = "{}";
  commands = none;
  channel_id = "7";
  username = "ann";
  platform = "TWITCH";
  state = "JOINED";
  added_by = [];
  editors = [];
  ambassadors = [];
  settings = record {
    paj_bot = none;
    user_cooldown = none;
    channel_cooldown = none;
    language = "en";
    permission = "";
    prefix = "#";
    users_blacklisted = [];
    no_reply = false;
    first_msg_responses = false;
    whisper_only = false;
    offline_only = false;
    force_language = false;
    silent_errors = false;
    color_responses = false;
  };
}

abbrev block_row : List Cell
block_row = number (pos 1) ∷ text "7" ∷ text "USER" ∷ text "" ∷ []

rows_short :
    (rows : List (List Cell))
    → some (block_row ∷ []) ≡ some rows
    → All (λ row. length row ≡ length block_columns) rows
rows_short rows h = let e : block_row ∷ [] ≡ rows = cc in rw (← e) (refl, tt)

abbrev database : Server
database = record {
  channel_row = λ column val platform. value raw_channel;
  command_rows = λ id. some [];
  block_rows = λ id. some (block_row ∷ []);
  block_rows-columns = λ id rows h. rows_short rows h;
}

abbrev shown : Channel
shown = record raw_channel { commands = some [] }

loaded : get_channel_by_type database "7" "TWITCH" "ID" ≡ value shown
unfolding get_channel_by_type fill_channel get_channel_blocks get_channel_commands collect
    scan_blocks scan_block split_blocks
loaded = refl

get_channel_by_type-no_blocks_example : (shown.blocks.users ≡ none) × (shown.blocks.commands ≡ none)
get_channel_by_type-no_blocks_example =
    get_channel_by_type-no_blocks database "7" "TWITCH" "ID" shown loaded

abbrev block : String → Block
block t = record {
  channel_id = "7";
  block_type = t;
  command_name = "";
  id = pos 1;
  blocked_user_id = pos 2;
}

abbrev three_blocks : List Block
three_blocks = block "COMMAND" ∷ block "GLOBAL" ∷ block "USER" ∷ []
