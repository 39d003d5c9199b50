-- ===== src/Users/Tests.antt =====
-- The users route run on a user, an unknown name, and the data of one player.
use mathlib.Core.List.Perm
use potat_api.Base.{
  Reply, ℕ, ◌≡◌, refl, ◌⊎◌, String, true, none, some, List, [], ◌∷◌, value, absent, fault, map,
}
use potat_api.Base.Int.{pos}
use potat_api.Http.{Writer, new_writer}
use potat_api.Users.Query.{Cell, get_potato_data}
use potat_api.Users.Query.Laws.{cells_of, get_potato_data-cells_of}
use potat_api.Users.Potato.{
  PotatoData, Action, potato_action, cdr_action, trample_action, steal_action, eat_action,
  quiz_action, tidy_potato_info,
}
use potat_api.Users.Load.{
  Answers, UserInfo, Task, fetch_user, fetch_channel, fetch_potatoes, fetch_last, or_old,
  or_old_time, load_user, started, has_task,
}
use potat_api.Users.Load.Order.{load_user-order}
use potat_api.Users.Route.{Response, split, get_users}
use potat_api.Users.Route.Laws.{Sends, get_users-answers}

abbrev sent : PotatoData
sent = record {
  first_seen = "2022-01-01";
  id = pos 21;
  eat_count = pos 22;
  cdr_count = pos 23;
  guard_buy_count = pos 24;
  fertilizer_buy_count = pos 25;
  cdr_buy_count = pos 26;
  new_quiz_buy_count = pos 27;
  average_response_count = pos 28;
  potato_count = pos 7;
  potato_prestige = pos 1;
  potato_rank = pos 2;
  tax_multiplier = pos 3;
  stole_from = none;
  stole_amount = none;
  trampled_by = some "forsen";
  average_response_time = "1m";
  harvest_count = pos 4;
  stolen_count = pos 5;
  theft_count = pos 6;
  trampled_count = pos 8;
  trample_count = pos 9;
  quiz_count = pos 10;
  quiz_complete_count = pos 11;
  gamble_win_count = pos 12;
  gamble_loss_count = pos 13;
  gamble_wins_total = pos 14;
  gamble_losses_total = pos 15;
  duel_win_count = pos 16;
  duel_loss_count = pos 17;
  duel_wins_amount = pos 18;
  duel_losses_amount = pos 19;
  duel_caught_losses = pos 20;
  not_verbose = true;
}

abbrev last : Action → ℕ
last a = 1000

abbrev now : Action → ℕ
now a = 1001

abbrev known : UserInfo String String
known = record { user = some "ryan"; channel = none; potatoes = none }

abbrev unknown : UserInfo String String
unknown = record { user = none; channel = none; potatoes = none }

abbrev answers : Answers String String
answers = record { user = value "ryan"; channel = absent; potatoes = fault; last = λ a. absent }

abbrev backwards : List Task
backwards =
    fetch_last quiz_action
    ∷ fetch_last eat_action
    ∷ fetch_last steal_action
    ∷ fetch_last trample_action
    ∷ fetch_last cdr_action
    ∷ fetch_last potato_action
    ∷ fetch_potatoes
    ∷ fetch_channel
    ∷ fetch_user
    ∷ []

all_done : (t : Task) → has_task t backwards ≡ true
all_done fetch_user = refl
all_done fetch_channel = refl
all_done fetch_potatoes = refl
all_done (fetch_last potato_action) = refl
all_done (fetch_last cdr_action) = refl
all_done (fetch_last trample_action) = refl
all_done (fetch_last steal_action) = refl
all_done (fetch_last eat_action) = refl
all_done (fetch_last quiz_action) = refl

-- The nine goroutines are all that there are.
started_all : (t : Task) → has_task t started ≡ true
started_all fetch_user = refl
started_all fetch_channel = refl
started_all fetch_potatoes = refl
started_all (fetch_last potato_action) = refl
started_all (fetch_last cdr_action) = refl
started_all (fetch_last trample_action) = refl
started_all (fetch_last steal_action) = refl
started_all (fetch_last eat_action) = refl
started_all (fetch_last quiz_action) = refl

split_run : split "a,b," ≡ "a" ∷ "b" ∷ "" ∷ []
unfolding split
split_run = refl

load_user-order_example : load_user true true answers backwards (λ a. pos 5) ≡ record {
  user = or_old none (value "ryan");
  channel = or_old none absent;
  potatoes = tidy_potato_info (or_old none fault) (λ c. or_old_time (pos 0) absent) (λ a. pos 5);
}
load_user-order_example = load_user-order answers backwards (λ a. pos 5) all_done

abbrev load : String → UserInfo String String
load name = known

abbrev arrived : List (UserInfo String String)
arrived = map load (split "ryan")

get_users-answers_example :
    (w' : Writer (Response String String)) × (get_users "ryan" arrived "1ms" new_writer ≡ some w')
    × (Sends 200 arrived new_writer w' ⊎ Sends 404 arrived new_writer w')
get_users-answers_example =
    get_users-answers "ryan" load arrived "1ms" new_writer refl (Perm.refl _)

abbrev answers_row : List String → String → Reply (List Cell)
answers_row selected username = value (cells_of sent selected)

get_potato_data-cells_of_example : get_potato_data answers_row "ryan" ≡ value sent
get_potato_data-cells_of_example = get_potato_data-cells_of answers_row "ryan" sent refl
