-- ===== src/Usage/Tests.antt =====
-- Two channels, one of them with rows.
use potat_api.Base.{
  ℕ, ◌≡◌, refl, String, true, some, none, List, [], ◌∷◌, lookup, assign, if◌then◌else◌,
}
use potat_api.Usage.{
  CommandUsage, StoredFile, update_aggregate_table, upsert_usage, sum_usage, delete_old_uploads,
}
use potat_api.Usage.Laws.{has_rows, usage_of, update_aggregate_table-sums}

abbrev settings : List CommandUsage
settings =
    record { channel_id = "a"; channel_usage = 3 }
    ∷ record { channel_id = "a"; channel_usage = 4 }
    ∷ []

abbrev table : List (String × ℕ)
table = ("b", 9) ∷ ("a", 1) ∷ []

swept : update_aggregate_table true settings table ≡ ("b", 9) ∷ ("a", 7) ∷ []
unfolding update_aggregate_table upsert_usage sum_usage lookup assign
swept = refl

update_aggregate_table-sums_example :
    lookup "a" (update_aggregate_table true settings table)
    ≡ (if has_rows "a" settings then some (usage_of "a" settings) else lookup "a" table)
update_aggregate_table-sums_example = update_aggregate_table-sums "a" settings table

abbrev old_file : StoredFile
old_file = record { key = "k"; created_at = 5; expires_at = none }

expired : delete_old_uploads true 2592006 (old_file ∷ []) ≡ []
unfolding delete_old_uploads
expired = refl
