-- ===== src/Users/Query/Laws.antt =====
-- Every column of GetPotatoData's query is scanned into the field of its name.
use potat_api.Base.{◌≡◌, refl, String, Option, none, some, List, [], ◌∷◌, lookup, Reply, value}
use potat_api.Base.Int.{ℤ}
use potat_api.Users.Potato.{PotatoData}
use potat_api.Users.Query.{
  Cell, null, number, text, flag, columns, targets, scan_values, zero_data, get_potato_data,
}

abbrev pub or_null : {A : Type 0} → (A → Cell) → Option A → Cell
or_null f none = null
or_null f (some a) = f a

-- The value that a user's data have in each column, by the column's name.
abbrev pub named : PotatoData → List (String × Cell)
named d =
    ("p.user_id", number d.id)
    ∷ ("p.potato_count", number d.potato_count)
    ∷ ("p.potato_prestige", number d.potato_prestige)
    ∷ ("p.potato_rank", number d.potato_rank)
    ∷ ("p.tax_multiplier", number d.tax_multiplier)
    ∷ ("p.first_seen", text d.first_seen)
    ∷ ("p.stole_from", or_null text d.stole_from)
    ∷ ("p.stole_amount", or_null number d.stole_amount)
    ∷ ("p.trampled_by", or_null text d.trampled_by)
    ∷ ("a.average_response_time", text d.average_response_time)
    ∷ ("a.eat_count", number d.eat_count)
    ∷ ("a.harvest_count", number d.harvest_count)
    ∷ ("a.stolen_count", number d.stolen_count)
    ∷ ("a.theft_count", number d.theft_count)
    ∷ ("a.trampled_count", number d.trampled_count)
    ∷ ("a.trample_count", number d.trample_count)
    ∷ ("a.cdr_count", number d.cdr_count)
    ∷ ("a.quiz_count", number d.quiz_count)
    ∷ ("a.quiz_complete_count", number d.quiz_complete_count)
    ∷ ("a.guard_buy_count", number d.guard_buy_count)
    ∷ ("a.fertilizer_buy_count", number d.fertilizer_buy_count)
    ∷ ("a.cdr_buy_count", number d.cdr_buy_count)
    ∷ ("a.new_quiz_buy_count", number d.new_quiz_buy_count)
    ∷ ("a.gamble_win_count", number d.gamble_win_count)
    ∷ ("a.gamble_loss_count", number d.gamble_loss_count)
    ∷ ("a.gamble_wins_total", number d.gamble_wins_total)
    ∷ ("a.gamble_losses_total", number d.gamble_losses_total)
    ∷ ("a.duel_win_count", number d.duel_win_count)
    ∷ ("a.duel_loss_count", number d.duel_loss_count)
    ∷ ("a.duel_wins_amount", number d.duel_wins_amount)
    ∷ ("a.duel_losses_amount", number d.duel_losses_amount)
    ∷ ("a.duel_caught_losses", number d.duel_caught_losses)
    ∷ ("a.average_response_count", number d.average_response_count)
    ∷ ("s.not_verbose", flag d.not_verbose)
    ∷ []

abbrev pub cell_or_null : Option Cell → Cell
cell_or_null none = null
cell_or_null (some c) = c

unfoldable pub cells_of : PotatoData → List String → List Cell
unfolding lookup
cells_of d [] = []
cells_of d (c ∷ cs) = cell_or_null (lookup c (named d)) ∷ cells_of d cs

-- By the three fields that can be NULL.
scan_options :
    (stole_from : Option String) (stole_amount : Option ℤ) (trampled_by : Option String)
    (d : PotatoData)
    → let d' = record d {
      stole_from = stole_from;
      stole_amount = stole_amount;
      trampled_by = trampled_by;
    } in
      scan_values targets (cells_of d' columns) zero_data ≡ some d'
unfolding scan_values cells_of
scan_options none none none d = refl
scan_options none none (some c) d = refl
scan_options none (some b) none d = refl
scan_options none (some b) (some c) d = refl
scan_options (some a) none none d = refl
scan_options (some a) none (some c) d = refl
scan_options (some a) (some b) none d = refl
scan_options (some a) (some b) (some c) d = refl

scan_values-cells_of :
    (d : PotatoData) → scan_values targets (cells_of d columns) zero_data ≡ some d
scan_values-cells_of d = scan_options d.stole_from d.stole_amount d.trampled_by d

-- Each column of the query is scanned into the field of its name: a row that has the data of a user
-- by the columns' names is read as these data.
pub get_potato_data-cells_of :
    (query : List String → String → Reply (List Cell)) (username : String) (d : PotatoData)
    → query columns username ≡ value (cells_of d columns)
    → get_potato_data query username ≡ value d
unfolding get_potato_data
get_potato_data-cells_of query username d answered = rw (answered, scan_values-cells_of d) refl
