-- ===== src/Channels/Blocks.antt =====
-- The blocks of a channel: the types of common/types.go, the loop of GetChannelBlocks and the split
-- at the end of getChannelByType (common/db/postgres.go).
use potat_api.Base.{
  String, Option, none, some, List, [], ◌∷◌, ◌++◌, length, ltb, str_eq, if◌then◌else◌,
}
use potat_api.Base.Int.{ℤ}

-- `Block`
pub record Block : Type 0 where
  pub channel_id : String
  pub block_type : String
  pub command_name : String
  pub id : ℤ
  pub blocked_user_id : ℤ

-- `FilteredBlocks`; a nil pointer is none.
pub record FilteredBlocks : Type 0 where
  pub users : Option (List Block)
  pub commands : Option (List Block)

-- The values of `BlockType` that are split off.
abbrev pub user_block : String
user_block = "USER"

abbrev pub command_block : String
command_block = "COMMAND"

-- One value of a row.
pub data Cell : Type 0 where
  text : String → Cell
  number : ℤ → Cell
  null : Cell

-- What the query selects. There is no comma after user_id, so block_id is its alias.
abbrev pub block_columns : List String
block_columns = "user_id block_id" ∷ "channel_id" ∷ "block_type" ∷ "block_data" ∷ []

abbrev pub scan_values : Cell → Cell → Cell → Cell → Cell → Option Block
scan_values (number i) (number b) (text ch) (text ty) (text nm) =
    some
      (record { channel_id = ch; block_type = ty; command_name = nm; id = i; blocked_user_id = b })
scan_values _ _ _ _ _ = none

-- `rows.Scan` into the five fields: an error unless there are five values of their types.
unfoldable pub scan_block : List Cell → Option Block
scan_block (i ∷ b ∷ ch ∷ ty ∷ nm ∷ []) = scan_values i b ch ty nm
scan_block _ = none

unfoldable pub scan_blocks : List (List Cell) → Option (List Block)
scan_blocks [] = some []
scan_blocks (row ∷ rows) = elim (scan_block row) [
  | none ↦ none
  | some b ↦ elim (scan_blocks rows) [ none ↦ none | some bs ↦ some (b ∷ bs) ]
]

abbrev pub scan_rows : Option (List (List Cell)) → Option (List Block)
scan_rows none = none
scan_rows (some rows) = scan_blocks rows

-- The loop that appends each block to one of the two lists, or to none.
unfoldable pub sort_blocks : List Block → List Block → List Block → List Block × List Block
sort_blocks [] users commands = (users, commands)
sort_blocks (b ∷ bs) users commands =
    let as_user = sort_blocks bs (users ++ b ∷ []) commands in
    let as_command = sort_blocks bs users (commands ++ b ∷ []) in
    let as_other = sort_blocks bs users commands in
    if str_eq b.block_type user_block
    then as_user
    else if str_eq b.block_type command_block
    then as_command
    else as_other

unfoldable pub split_blocks : List Block → FilteredBlocks
unfolding sort_blocks
split_blocks bs =
    if ltb 0 (length bs)
    then record {
      users = some ((sort_blocks bs [] []).0);
      commands = some ((sort_blocks bs [] []).1);
    }
    else record { users = none; commands = none }
