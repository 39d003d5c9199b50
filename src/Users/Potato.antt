-- ===== src/Users/Potato.antt =====
-- potatoInfo and tidyPotatoInfo of api/routes/get/user.go, and common.PotatoData. Times are Unix
-- milliseconds; the clock is read once for each cooldown.
pub mod Ready
use potat_api.Base.{ℕ, String, Bool, true, false, Option, none, some, ltb, if◌then◌else◌}
use potat_api.Base.Int.{ℤ, pos, negsuc, ◌-ℤ◌}

-- `PotatoData`, with the fields of Potatoes, PotatoAnalytics and PotatoSettings.
pub record PotatoData : Type 0 where
  pub first_seen : String
  pub id : ℤ
  pub potato_count : ℤ
  pub potato_prestige : ℤ
  pub potato_rank : ℤ
  pub tax_multiplier : ℤ
  pub stole_from : Option String
  pub stole_amount : Option ℤ
  pub trampled_by : Option String
  pub average_response_time : String
  pub eat_count : ℤ
  pub harvest_count : ℤ
  pub stolen_count : ℤ
  pub theft_count : ℤ
  pub trampled_count : ℤ
  pub trample_count : ℤ
  pub cdr_count : ℤ
  pub quiz_count : ℤ
  pub quiz_complete_count : ℤ
  pub guard_buy_count : ℤ
  pub fertilizer_buy_count : ℤ
  pub cdr_buy_count : ℤ
  pub new_quiz_buy_count : ℤ
  pub gamble_win_count : ℤ
  pub gamble_loss_count : ℤ
  pub gamble_wins_total : ℤ
  pub gamble_losses_total : ℤ
  pub duel_win_count : ℤ
  pub duel_loss_count : ℤ
  pub duel_wins_amount : ℤ
  pub duel_losses_amount : ℤ
  pub duel_caught_losses : ℤ
  pub average_response_count : ℤ
  pub not_verbose : Bool

pub record Potato : Type 0 where
  pub average_response : String
  pub ready_at : ℤ
  pub usage : ℤ
  pub ready : Bool

-- cdr and eat
pub record Cooldown : Type 0 where
  pub ready_at : ℤ
  pub ready : Bool

pub record Trample : Type 0 where
  pub trampled_by : Option String
  pub ready_at : ℤ
  pub trample_count : ℤ
  pub trampled_count : ℤ
  pub ready : Bool

pub record Steal : Type 0 where
  pub stole_by : Option String
  pub stolen_amount : Option ℤ
  pub ready_at : ℤ
  pub stolen_count : ℤ
  pub theft_count : ℤ
  pub ready : Bool

pub record Quiz : Type 0 where
  pub ready_at : ℤ
  pub ready : Bool
  pub attempted : ℤ
  pub completed : ℤ

pub record Gamble : Type 0 where
  pub win_count : ℤ
  pub lose_count : ℤ
  pub total_wins : ℤ
  pub total_losses : ℤ

pub record Duel : Type 0 where
  pub win_count : ℤ
  pub lose_count : ℤ
  pub total_wins : ℤ
  pub total_losses : ℤ
  pub caught_losses : ℤ

pub record PotatoInfo : Type 0 where
  pub joined_at : String
  pub count : ℤ
  pub prestige : ℤ
  pub rank : ℤ
  pub tax_multiplier : ℤ
  pub verbose : Bool
  pub potato : Potato
  pub cdr : Cooldown
  pub trample : Trample
  pub steal : Steal
  pub eat : Cooldown
  pub quiz : Quiz
  pub gamble : Gamble
  pub duel : Duel

-- The six times that Redis has of a user.
pub data Action : Type 0 where
  potato_action cdr_action trample_action steal_action eat_action quiz_action : Action

-- a > b
abbrev pub gtb : ℤ → ℤ → Bool
gtb (pos a) (pos b) = ltb b a
gtb (pos a) (negsuc b) = true
gtb (negsuc a) (pos b) = false
gtb (negsuc a) (negsuc b) = ltb a b

-- Half an hour in milliseconds.
abbrev pub cdr_wait : ℤ
cdr_wait = pos 1800000

unfoldable pub is_ready : ℤ → ℤ → Bool
is_ready now last = gtb now last

unfoldable pub cdr_ready : ℤ → ℤ → Bool
cdr_ready now last = gtb (now -ℤ last) cdr_wait

-- `now` is what the clock shows for each of them.
unfoldable pub tidy : PotatoData → (Action → ℤ) → (Action → ℤ) → PotatoInfo
tidy data' last now = record {
  joined_at = data'.first_seen;
  count = data'.potato_count;
  prestige = data'.potato_prestige;
  rank = data'.potato_rank;
  tax_multiplier = data'.tax_multiplier;
  verbose = data'.not_verbose;
  potato = record {
    ready_at = last potato_action;
    ready = is_ready (now potato_action) (last potato_action);
    usage = data'.harvest_count;
    average_response = data'.average_response_time;
  };
  cdr = record { ready_at = last cdr_action; ready = cdr_ready (now cdr_action) (last cdr_action) };
  trample = record {
    ready_at = last trample_action;
    ready = is_ready (now trample_action) (last trample_action);
    trample_count = data'.trample_count;
    trampled_count = data'.trampled_count;
    trampled_by = data'.trampled_by;
  };
  steal = record {
    ready_at = last steal_action;
    ready = is_ready (now steal_action) (last steal_action);
    stolen_count = data'.stolen_count;
    theft_count = data'.theft_count;
    stole_by = data'.stole_from;
    stolen_amount = data'.stole_amount;
  };
  eat = record { ready_at = last eat_action; ready = is_ready (now eat_action) (last eat_action) };
  quiz = record {
    ready_at = last quiz_action;
    ready = is_ready (now quiz_action) (last quiz_action);
    attempted = data'.quiz_count;
    completed = data'.quiz_complete_count;
  };
  gamble = record {
    win_count = data'.gamble_win_count;
    lose_count = data'.gamble_loss_count;
    total_wins = data'.gamble_wins_total;
    total_losses = data'.gamble_losses_total;
  };
  duel = record {
    win_count = data'.duel_win_count;
    lose_count = data'.duel_loss_count;
    total_wins = data'.duel_wins_amount;
    total_losses = data'.duel_losses_amount;
    caught_losses = data'.duel_caught_losses;
  };
}

unfoldable pub tidy_potato_info :
    Option PotatoData → (Action → ℤ) → (Action → ℤ) → Option PotatoInfo
tidy_potato_info none last now = none
tidy_potato_info (some data') last now = some (tidy data' last now)
