-- ===== src/Schedule.antt =====
-- StartLoops of common/db/loops.go: which sweeps are started, and when. The parser of cron is a
-- parameter; the sweeps are modelled in Usage, Tokens, Views, Dumps and Duels.
mod Tests
use potat_api.Base.{
  ℕ, ◌+◌, ◌≡◌, refl, String, Bool, true, false, not, ◌||◌, ◌⊎◌, inl, inr, List, [], ◌∷◌, ◌++◌, all,
  Bool-cases, if◌then◌else◌, arith,
}

pub data Sweep : Type 0 where
  hourly_usage daily_usage weekly_usage aggregate_table old_uploads : Sweep
  validate_tokens refresh_tokens : Sweep
  color_view active_badge_view owned_badge_view user_owned_badge_view : Sweep
  backup_postgres decrement_duels : Sweep

-- A schedule in cron's notation, and what is called at its times.
pub record Job : Type 0 where
  pub schedule : String
  pub sweeps : List Sweep

abbrev pub at : String → List Sweep → Job
at schedule sweeps = record { schedule = schedule; sweeps = sweeps }

-- The calls of AddFunc in their order.
abbrev pub jobs : List Job
jobs =
    at "@hourly" (hourly_usage ∷ validate_tokens ∷ [])
    ∷ at "@daily" (daily_usage ∷ [])
    ∷ at "@weekly" (weekly_usage ∷ [])
    ∷ at "0 */2 * * *" (refresh_tokens ∷ [])
    ∷ at "*/30 * * * *"
        (color_view ∷ active_badge_view ∷ owned_badge_view ∷ user_owned_badge_view ∷ [])
    ∷ at "0 */12 * * *" (backup_postgres ∷ [])
    ∷ []

-- What is running once StartLoops has returned.
pub record Started : Type 0 where
  pub cron : List Job
  pub goroutines : List Sweep

-- AddFunc for each job; the first that the parser refuses ends StartLoops, before cron is started.
unfoldable pub add_jobs : (String → Bool) → List Job → List Job → Started
add_jobs parses added [] = record {
  cron = added;
  goroutines = decrement_duels ∷ old_uploads ∷ aggregate_table ∷ [];
}
add_jobs parses added (job ∷ rest) =
    let more = add_jobs parses (added ++ job ∷ []) rest in
    if parses job.schedule then more else record { cron = []; goroutines = [] }

unfoldable pub start_loops : Bool → (String → Bool) → Started
unfolding add_jobs
start_loops enabled parses =
    if enabled then add_jobs parses [] jobs else record { cron = []; goroutines = [] }

-- Every sweep that is started, once for each schedule or goroutine that has it.
abbrev pub sweeps_of : List Job → List Sweep
sweeps_of [] = []
sweeps_of (job ∷ rest) = job.sweeps ++ sweeps_of rest

abbrev pub started : Started → List Sweep
started s = sweeps_of s.cron ++ s.goroutines

-- Without the loops, or if cron refuses one of the six schedules, nothing is started at all; else
-- every job is scheduled, and the three goroutines run.
pub start_loops-all :
    (enabled : Bool) (parses : String → Bool)
    → start_loops enabled parses ≡ (
        if enabled
        then (if all (λ job. parses job.schedule) jobs
            then record {
              cron = jobs;
              goroutines = decrement_duels ∷ old_uploads ∷ aggregate_table ∷ [];
            }
            else record { cron = []; goroutines = [] })
        else record { cron = []; goroutines = [] })
unfolding start_loops add_jobs
start_loops-all enabled parses = ground arith
