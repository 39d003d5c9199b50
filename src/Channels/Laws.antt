-- ===== src/Channels/Laws.antt =====
-- How the blocks of a channel are split, and which channels have blocks at all.
use potat_api.Base.{
  ℕ, suc, ◌≡◌, refl, String, Bool, true, false, none, some, List, [], ◌∷◌, ◌++◌, length, filter,
  All, str_eq, eq_iff, ◌⊎◌, Reply, value, absent, fault, ltb, Bool-cases, Option-cases, inl, inr,
  arith,
}
use mathlib.Core.List.{append_assoc, append-nil}
use potat_api.Channels.{
  Channel, Server, filled, fill_channel, get_channel_blocks, get_channel_by_type, or_empty,
}
use potat_api.Channels.Blocks.{
  Block, Cell, user_block, command_block, block_columns, scan_block, scan_blocks, sort_blocks,
  split_blocks,
}

abbrev pub has_type : String → Block → Bool
has_type t b = str_eq b.block_type t

not_both : (t : String) → str_eq t user_block ≡ true → str_eq t command_block ≡ false
not_both t h = rw ((eq_iff t user_block).0 h) refl

sort_blocks-filter :
    (bs users commands : List Block)
    → sort_blocks bs users commands
      ≡ (users ++ filter (has_type user_block) bs, commands ++ filter (has_type command_block) bs)
unfolding sort_blocks
sort_blocks-filter [] users commands = rw (append-nil users, append-nil commands) refl
sort_blocks-filter (b ∷ bs) users commands = elim (Bool-cases (str_eq b.block_type user_block)) [
  | inl user ↦
      rw
        (
          user,
          not_both b.block_type user,
          sort_blocks-filter bs (users ++ b ∷ []) commands,
          append_assoc users (b ∷ []) (filter (has_type user_block) bs),
        )
        refl
  | inr other ↦ elim (Bool-cases (str_eq b.block_type command_block)) [
    | inl command ↦
        rw
          (
            other,
            command,
            sort_blocks-filter bs users (commands ++ b ∷ []),
            append_assoc commands (b ∷ []) (filter (has_type command_block) bs),
          )
          refl
    | inr neither ↦ rw (other, neither, sort_blocks-filter bs users commands) refl
  ]
]

positive : (n : ℕ) → ltb 0 (suc n) ≡ true
positive n = ground arith

-- A channel with any block gets two lists: its blocks of type USER and its blocks of type COMMAND,
-- each in the order of the rows; blocks of another type are in neither. Without a block both lists
-- are nil.
pub split_blocks-filters :
    (bs : List Block)
    → ((bs ≡ []) × (split_blocks bs ≡ record { users = none; commands = none }))
      ⊎ (split_blocks bs ≡ record {
        users = some (filter (has_type user_block) bs);
        commands = some (filter (has_type command_block) bs);
      })
unfolding split_blocks
split_blocks-filters [] = inl (refl, refl)
split_blocks-filters (b ∷ bs) =
    inr (rw (sort_blocks-filter (b ∷ bs) [] [], positive (length bs)) refl)

-- A row of as many values as the query has columns never scans.
scan_block-short : (row : List Cell) → length row ≡ length block_columns → scan_block row ≡ none
unfolding scan_block
scan_block-short [] h = refl
scan_block-short (a ∷ []) h = refl
scan_block-short (a ∷ b ∷ []) h = refl
scan_block-short (a ∷ b ∷ c ∷ []) h = refl
scan_block-short (a ∷ b ∷ c ∷ d ∷ []) h = refl
scan_block-short (a ∷ b ∷ c ∷ d ∷ e ∷ []) h = ground arith
scan_block-short (a ∷ b ∷ c ∷ d ∷ e ∷ f ∷ rest) h = refl

scan_rows-empty :
    (rows : List (List Cell))
    → All (λ row. length row ≡ length block_columns) rows
    → or_empty (scan_blocks rows) ≡ []
unfolding scan_blocks
scan_rows-empty [] h = refl
scan_rows-empty (row ∷ rows) (short, h) = rw (scan_block-short row short, or_empty) refl

module _ (server : Server) where
  no_blocks : (id : String) → or_empty (get_channel_blocks server id) ≡ []
  unfolding get_channel_blocks
  no_blocks id = elim (Option-cases (server.block_rows id)) [
    | inl failed ↦ rw failed refl
    | inr (rows, e) ↦ rw e (scan_rows-empty rows (server.block_rows-columns id rows e))
  ]

  fill_channel-no_blocks :
      (row : Channel)
      → (((fill_channel server row).blocks).users ≡ none)
        × (((fill_channel server row).blocks).commands ≡ none)
  unfolding fill_channel split_blocks
  fill_channel-no_blocks row = rw (no_blocks row.channel_id) (refl, refl)

  filled-no_blocks :
      (row : Reply Channel) (ch : Channel)
      → filled server row ≡ value ch
      → (ch.blocks.users ≡ none) × (ch.blocks.commands ≡ none)
  filled-no_blocks (value row) ch h =
      let e : fill_channel server row ≡ ch = cc in rw (← e) (fill_channel-no_blocks row)
  filled-no_blocks absent ch h = absurd (cc h)
  filled-no_blocks fault ch h = absurd (cc h)

  -- However a channel is looked up, the channel that is given back has neither a blocked user nor a
  -- blocked command, whatever the table of blocks holds.
  pub get_channel_by_type-no_blocks :
      (val platform chan_type : String) (ch : Channel)
      → get_channel_by_type server val platform chan_type ≡ value ch
      → (ch.blocks.users ≡ none) × (ch.blocks.commands ≡ none)
  unfolding get_channel_by_type
  get_channel_by_type-no_blocks val platform chan_type ch h =
      elim (Bool-cases (str_eq chan_type "ID")) [
        | inl id ↦ filled-no_blocks (server.channel_row "channel_id" val platform) ch (rw id at h)
        | inr other ↦ elim (Bool-cases (str_eq chan_type "NAME")) [
          | inl name ↦
              filled-no_blocks (server.channel_row "username" val platform) ch
                (rw (other, name) at h)
          | inr neither ↦ absurd (cc (rw (other, neither) at h))
        ]
      ]
