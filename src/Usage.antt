-- ===== src/Usage.antt =====
-- The sweeps of common/db/loops.go that are one SQL statement each: updateHourlyUsage,
-- updateDailyUsage, updateWeeklyUsage, updateAggregateTable and deleteOldUploads. A table is the list
-- of its rows, of which those columns are kept that the statement names, and times are in seconds.
-- A statement that fails changes nothing.
pub mod Laws
mod Tests
use potat_api.Base.{
  ℕ, ◌+◌, ◌-◌, ◌*◌, String, Bool, true, false, not, ◌&&◌, ◌||◌, Option, none, some, List, [], ◌∷◌,
  map, filter, ltb, str_eq, lookup, assign, if◌then◌else◌,
}

-- A row of gpt_usage.
pub record GptUsage : Type 0 where
  pub user_id : ℕ
  pub hourly_usage : ℕ
  pub daily_usage : ℕ
  pub weekly_usage : ℕ

abbrev pub no_hourly : GptUsage → GptUsage
no_hourly row = record row { hourly_usage = 0 }

abbrev pub no_daily : GptUsage → GptUsage
no_daily row = record row { daily_usage = 0 }

abbrev pub no_weekly : GptUsage → GptUsage
no_weekly row = record row { weekly_usage = 0 }

-- `ok` says whether the database runs the statement.
unfoldable pub update_hourly_usage : Bool → List GptUsage → List GptUsage
update_hourly_usage ok rows = if ok then map no_hourly rows else rows

unfoldable pub update_daily_usage : Bool → List GptUsage → List GptUsage
update_daily_usage ok rows = if ok then map no_daily rows else rows

unfoldable pub update_weekly_usage : Bool → List GptUsage → List GptUsage
update_weekly_usage ok rows = if ok then map no_weekly rows else rows

-- A row of command_settings.
pub record CommandUsage : Type 0 where
  pub channel_id : String
  pub channel_usage : ℕ

-- SELECT channel_id, SUM(channel_usage) ... GROUP BY channel_id
abbrev pub or_zero : Option ℕ → ℕ
or_zero none = 0
or_zero (some n) = n

unfoldable pub sum_usage : List CommandUsage → List (String × ℕ)
unfolding lookup assign
sum_usage [] = []
sum_usage (row ∷ rows) =
    let sums = sum_usage rows in
    assign row.channel_id (row.channel_usage + or_zero (lookup row.channel_id sums)) sums

-- INSERT ... ON CONFLICT (channel_id) DO UPDATE, for each row.
unfoldable pub upsert_usage : List (String × ℕ) → List (String × ℕ) → List (String × ℕ)
unfolding assign
upsert_usage [] table = table
upsert_usage ((channel_id, usage) ∷ sums) table = upsert_usage sums (assign channel_id usage table)

unfoldable pub update_aggregate_table :
    Bool → List CommandUsage → List (String × ℕ) → List (String × ℕ)
unfolding sum_usage upsert_usage
update_aggregate_table ok settings table =
    if ok then upsert_usage (sum_usage settings) table else table

-- A row of file_store.
pub record StoredFile : Type 0 where
  pub key : String
  pub created_at : ℕ
  pub expires_at : Option ℕ

-- created_at < NOW() - INTERVAL '30 days', written so that nothing is subtracted.
abbrev pub is_old : ℕ → StoredFile → Bool
is_old now file = ltb (file.created_at + 30 * 86400) now

abbrev pub is_out : ℕ → StoredFile → Option ℕ → Bool
is_out now file none = is_old now file
is_out now file (some e) = ltb e now

unfoldable pub delete_old_uploads : Bool → ℕ → List StoredFile → List StoredFile
delete_old_uploads ok now files =
    if ok then filter (λ file. not (is_out now file file.expires_at)) files else files
