-- ===== src/Users/Query.antt =====
-- GetPotatoData of common/db/postgres.go: the columns of its query against the targets of its Scan.
-- PostgreSQL is a parameter that answers with the first row, one value for each column.
pub mod Laws
use potat_api.Base.{
  ◌≡◌, refl, String, Bool, true, false, Option, none, some, List, [], ◌∷◌, lookup, Reply, value,
  absent, fault,
}
use potat_api.Base.Int.{ℤ, pos}
use potat_api.Users.Potato.{PotatoData}

-- A value of a row.
pub data Cell : Type 0 where
  null : Cell
  number : ℤ → Cell
  text : String → Cell
  flag : Bool → Cell

-- The columns that the query selects.
abbrev pub columns : List String
columns =
    "p.user_id" ∷ "p.potato_count" ∷ "p.potato_prestige" ∷ "p.potato_rank" ∷ "p.tax_multiplier"
    ∷ "p.first_seen" ∷ "p.stole_from" ∷ "p.stole_amount" ∷ "p.trampled_by"
    ∷ "a.average_response_time" ∷ "a.eat_count" ∷ "a.harvest_count" ∷ "a.stolen_count"
    ∷ "a.theft_count" ∷ "a.trampled_count" ∷ "a.trample_count" ∷ "a.cdr_count" ∷ "a.quiz_count"
    ∷ "a.quiz_complete_count" ∷ "a.guard_buy_count" ∷ "a.fertilizer_buy_count" ∷ "a.cdr_buy_count"
    ∷ "a.new_quiz_buy_count" ∷ "a.gamble_win_count" ∷ "a.gamble_loss_count" ∷ "a.gamble_wins_total"
    ∷ "a.gamble_losses_total" ∷ "a.duel_win_count" ∷ "a.duel_loss_count" ∷ "a.duel_wins_amount"
    ∷ "a.duel_losses_amount" ∷ "a.duel_caught_losses" ∷ "a.average_response_count" ∷ "s.not_verbose"
    ∷ []

-- A target of Scan: a value of another type, or NULL where the field is no pointer, is an error.
abbrev pub Target : Type 0
Target = Cell → PotatoData → Option PotatoData

abbrev pub into_int : (ℤ → PotatoData → PotatoData) → Target
into_int put (number n) d = some (put n d)
into_int put _ d = none

abbrev pub into_text : (String → PotatoData → PotatoData) → Target
into_text put (text s) d = some (put s d)
into_text put _ d = none

abbrev pub into_bool : (Bool → PotatoData → PotatoData) → Target
into_bool put (flag b) d = some (put b d)
into_bool put _ d = none

abbrev pub into_optional_int : (Option ℤ → PotatoData → PotatoData) → Target
into_optional_int put null d = some (put none d)
into_optional_int put (number n) d = some (put (some n) d)
into_optional_int put _ d = none

abbrev pub into_optional_text : (Option String → PotatoData → PotatoData) → Target
into_optional_text put null d = some (put none d)
into_optional_text put (text s) d = some (put (some s) d)
into_optional_text put _ d = none

-- The arguments of Scan.
abbrev pub targets : List Target
targets =
    into_int (λ v d. record d { id = v })
    ∷ into_int (λ v d. record d { potato_count = v })
    ∷ into_int (λ v d. record d { potato_prestige = v })
    ∷ into_int (λ v d. record d { potato_rank = v })
    ∷ into_int (λ v d. record d { tax_multiplier = v })
    ∷ into_text (λ v d. record d { first_seen = v })
    ∷ into_optional_text (λ v d. record d { stole_from = v })
    ∷ into_optional_int (λ v d. record d { stole_amount = v })
    ∷ into_optional_text (λ v d. record d { trampled_by = v })
    ∷ into_text (λ v d. record d { average_response_time = v })
    ∷ into_int (λ v d. record d { eat_count = v })
    ∷ into_int (λ v d. record d { harvest_count = v })
    ∷ into_int (λ v d. record d { stolen_count = v })
    ∷ into_int (λ v d. record d { theft_count = v })
    ∷ into_int (λ v d. record d { trampled_count = v })
    ∷ into_int (λ v d. record d { trample_count = v })
    ∷ into_int (λ v d. record d { cdr_count = v })
    ∷ into_int (λ v d. record d { quiz_count = v })
    ∷ into_int (λ v d. record d { quiz_complete_count = v })
    ∷ into_int (λ v d. record d { guard_buy_count = v })
    ∷ into_int (λ v d. record d { fertilizer_buy_count = v })
    ∷ into_int (λ v d. record d { cdr_buy_count = v })
    ∷ into_int (λ v d. record d { new_quiz_buy_count = v })
    ∷ into_int (λ v d. record d { gamble_win_count = v })
    ∷ into_int (λ v d. record d { gamble_loss_count = v })
    ∷ into_int (λ v d. record d { gamble_wins_total = v })
    ∷ into_int (λ v d. record d { gamble_losses_total = v })
    ∷ into_int (λ v d. record d { duel_win_count = v })
    ∷ into_int (λ v d. record d { duel_loss_count = v })
    ∷ into_int (λ v d. record d { duel_wins_amount = v })
    ∷ into_int (λ v d. record d { duel_losses_amount = v })
    ∷ into_int (λ v d. record d { duel_caught_losses = v })
    ∷ into_int (λ v d. record d { average_response_count = v })
    ∷ into_bool (λ v d. record d { not_verbose = v })
    ∷ []

-- Scan: as many values as targets.
unfoldable pub scan_values : List Target → List Cell → PotatoData → Option PotatoData
scan_values [] [] d = some d
scan_values [] (c ∷ cells) d = none
scan_values (put ∷ puts) [] d = none
scan_values (put ∷ puts) (c ∷ cells) d = elim (put c d) [
  | none ↦ none
  | some d' ↦ scan_values puts cells d'
]

abbrev pub zero_data : PotatoData
zero_data = record {
  first_seen = "";
  id = pos 0;
  potato_count = pos 0;
  potato_prestige = pos 0;
  potato_rank = pos 0;
  tax_multiplier = pos 0;
  stole_from = none;
  stole_amount = none;
  trampled_by = none;
  average_response_time = "";
  eat_count = pos 0;
  harvest_count = pos 0;
  stolen_count = pos 0;
  theft_count = pos 0;
  trampled_count = pos 0;
  trample_count = pos 0;
  cdr_count = pos 0;
  quiz_count = pos 0;
  quiz_complete_count = pos 0;
  guard_buy_count = pos 0;
  fertilizer_buy_count = pos 0;
  cdr_buy_count = pos 0;
  new_quiz_buy_count = pos 0;
  gamble_win_count = pos 0;
  gamble_loss_count = pos 0;
  gamble_wins_total = pos 0;
  gamble_losses_total = pos 0;
  duel_win_count = pos 0;
  duel_loss_count = pos 0;
  duel_wins_amount = pos 0;
  duel_losses_amount = pos 0;
  duel_caught_losses = pos 0;
  average_response_count = pos 0;
  not_verbose = false;
}

abbrev pub scanned : Option PotatoData → Reply PotatoData
scanned none = fault
scanned (some d) = value d

abbrev pub scan_row : Reply (List Cell) → Reply PotatoData
scan_row (value cells) = scanned (scan_values targets cells zero_data)
scan_row absent = absent
scan_row fault = fault

-- `query` answers the selected columns of the row of a user name.
unfoldable pub get_potato_data :
    (List String → String → Reply (List Cell)) → String → Reply PotatoData
unfolding scan_values
get_potato_data query username = scan_row (query columns username)
