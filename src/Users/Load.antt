-- ===== src/Users/Load.antt =====
-- loadUser of api/routes/get/user.go: nine goroutines that each write one variable, and what is made
-- of them when all are done. The database and Redis are parameters.
pub mod Order
use potat_api.Base.{
  ◌≡◌, refl, String, Bool, true, false, ◌&&◌, ◌||◌, Option, none, some, List, [], ◌∷◌, ◌++◌, Reply,
  value, absent, fault, if◌then◌else◌, arith,
}
use potat_api.Base.Int.{ℤ, pos}
use potat_api.Users.Potato.{
  PotatoData, PotatoInfo, Action, potato_action, cdr_action, trample_action, steal_action,
  eat_action, quiz_action, tidy_potato_info,
}

-- What GetUserByName, GetChannelByName, GetPotatoData and Redis's GET answer for one user.
pub record Answers (User Channel : Type 0) : Type 0 where
  pub user : Reply User
  pub channel : Reply Channel
  pub potatoes : Reply PotatoData
  pub last : Action → Reply ℤ

pub record UserInfo (User Channel : Type 0) : Type 0 where
  pub user : Option User
  pub channel : Option Channel
  pub potatoes : Option PotatoInfo

-- The variables that the goroutines share.
pub record Loaded (User Channel : Type 0) : Type 0 where
  pub user : Option User
  pub channel : Option Channel
  pub potatoes : Option PotatoData
  pub last : Action → ℤ

pub data Task : Type 0 where
  fetch_user fetch_channel fetch_potatoes : Task
  fetch_last : Action → Task

-- No row is the nil pointer that comes with the error; any other error leaves the variable.
unfoldable pub or_old : {A : Type 0} → Option A → Reply A → Option A
or_old old (value a) = some a
or_old old absent = none
or_old old fault = old

-- A missing key reads as 0; any other error leaves the variable.
unfoldable pub or_old_time : ℤ → Reply ℤ → ℤ
or_old_time old (value t) = t
or_old_time old absent = pos 0
or_old_time old fault = old

abbrev pub eq_action : Action → Action → Bool
eq_action potato_action potato_action = true
eq_action cdr_action cdr_action = true
eq_action trample_action trample_action = true
eq_action steal_action steal_action = true
eq_action eat_action eat_action = true
eq_action quiz_action quiz_action = true
eq_action _ _ = false

abbrev pub eq_task : Task → Task → Bool
eq_task fetch_user fetch_user = true
eq_task fetch_channel fetch_channel = true
eq_task fetch_potatoes fetch_potatoes = true
eq_task (fetch_last a) (fetch_last b) = eq_action a b
eq_task _ _ = false

module _ {User Channel : Type 0} where
  -- The variables before the goroutines start.
  abbrev pub nothing : Loaded User Channel
  nothing = record { user = none; channel = none; potatoes = none; last = λ a. pos 0 }

  -- One goroutine, from its query to its assignment.
  unfoldable pub run_task : Answers User Channel → Task → Loaded User Channel → Loaded User Channel
  unfolding or_old or_old_time
  run_task a fetch_user l = record l { user = or_old l.user a.user }
  run_task a fetch_channel l = record l { channel = or_old l.channel a.channel }
  run_task a fetch_potatoes l = record l { potatoes = or_old l.potatoes a.potatoes }
  run_task a (fetch_last c) l = record l {
    last = λ d. if eq_action c d then or_old_time (l.last d) (a.last d) else l.last d;
  }

  -- The goroutines in the order in which they write.
  unfoldable pub run_tasks :
      Answers User Channel → List Task → Loaded User Channel → Loaded User Channel
  unfolding run_task
  run_tasks a [] l = l
  run_tasks a (t ∷ ts) l = run_tasks a ts (run_task a t l)

  unfoldable pub user_info : Loaded User Channel → (Action → ℤ) → UserInfo User Channel
  unfolding tidy_potato_info
  user_info l now = record {
    user = l.user;
    channel = l.channel;
    potatoes = tidy_potato_info l.potatoes l.last now;
  }

  -- Both clients are in the context, or nothing is loaded.
  unfoldable pub load_user :
      Bool → Bool → Answers User Channel → List Task → (Action → ℤ) → UserInfo User Channel
  unfolding run_tasks
  load_user has_postgres has_redis a order now =
      if has_postgres && has_redis
      then user_info (run_tasks a order nothing) now
      else record { user = none; channel = none; potatoes = none }

-- The nine goroutines, as they are started.
abbrev pub started : List Task
started =
    fetch_user
    ∷ fetch_channel
    ∷ fetch_potatoes
    ∷ fetch_last potato_action
    ∷ fetch_last cdr_action
    ∷ fetch_last trample_action
    ∷ fetch_last steal_action
    ∷ fetch_last eat_action
    ∷ fetch_last quiz_action
    ∷ []

abbrev pub has_task : Task → List Task → Bool
has_task t [] = false
has_task t (u ∷ us) = eq_task u t || has_task t us
