-- ===== src/Views/Laws.antt =====
-- What the views by badge count.
use potat_api.Base.{
  ℕ, suc, ◌+◌, ◌≡◌, refl, String, Bool, true, false, ◌&&◌, List, [], ◌∷◌, length, filter, str_eq,
  eq_iff, if◌then◌else◌, ◌⊎◌, inl, inr, arith,
}
use potat_api.Views.{
  Badge, BadgeStats, is_shown, is_group, count_row, select_badges, refresh_view,
  update_active_badge_view, update_owned_badge_view,
}

-- The count that a view has for a badge and a version.
abbrev pub count_of : String → String → List BadgeStats → ℕ
count_of b v [] = 0
count_of b v (stats ∷ rest) =
    let later = count_of b v rest in if is_group b v stats then stats.user_count else later

-- A row that counts for a badge and a version.
abbrev pub counts_for : String → String → Badge → Bool
counts_for b v row = is_shown row.badge && (str_eq row.badge b && str_eq row.version v)

abbrev pub total : List BadgeStats → ℕ
total [] = 0
total (stats ∷ rest) = stats.user_count + total rest

count_of-count_row :
    (b v : String) (row : Badge) (table : List BadgeStats)
    → count_of b v (count_row row table)
      ≡ count_of b v table + (if str_eq row.badge b && str_eq row.version v then 1 else 0)
unfolding count_row
count_of-count_row b v row [] = ground arith
count_of-count_row b v row (stats ∷ rest) = ground (
  arith,
  count_of-count_row b v row rest,
  eq_iff row.badge b,
  eq_iff row.version v,
  eq_iff stats.badge b,
  eq_iff stats.version v,
  eq_iff stats.badge row.badge,
  eq_iff stats.version row.version,
)

total-count_row :
    (row : Badge) (table : List BadgeStats) → total (count_row row table) ≡ suc (total table)
unfolding count_row
total-count_row row [] = omega arith
total-count_row row (stats ∷ rest) = ground (arith, total-count_row row rest)

select_badges-counts :
    (b v : String) (rows : List Badge)
    → count_of b v (select_badges rows) ≡ length (filter (counts_for b v) rows)
unfolding select_badges
select_badges-counts b v [] = refl
select_badges-counts b v (row ∷ rows) =
    ground (arith, select_badges-counts b v rows, count_of-count_row b v row (select_badges rows))

select_badges-total :
    (rows : List Badge)
    → total (select_badges rows) ≡ length (filter (λ row. is_shown row.badge) rows)
unfolding select_badges
select_badges-total [] = refl
select_badges-total (row ∷ rows) =
    ground (arith, select_badges-total rows, total-count_row row (select_badges rows))

-- The view counts each badge and version right: as many as there are rows of them, none of a badge
-- that is not shown, and no row is counted twice or not at all.
abbrev pub IsExact : List Badge → List BadgeStats → Type 0
IsExact rows view =
    ((b v : String) → count_of b v view ≡ length (filter (counts_for b v) rows))
    × (total view ≡ length (filter (λ row. is_shown row.badge) rows))

-- After a run of either sweep the view is the old one if it could not be truncated; else it is empty
-- if it could not be filled again; else it is exact for the rows that it is computed from.
pub update_badge_views-IsExact :
    (truncated inserted : Bool) (rows : List Badge) (table : List BadgeStats)
    → let view = update_active_badge_view truncated inserted rows table in
      (((truncated ≡ false) × (view ≡ table))
        ⊎ (((inserted ≡ false) × (view ≡ [])) ⊎ IsExact rows view))
      × (update_owned_badge_view truncated inserted rows table ≡ view)
unfolding update_active_badge_view update_owned_badge_view refresh_view
update_badge_views-IsExact false inserted rows table = (inl (refl, refl), refl)
update_badge_views-IsExact true false rows table = (inr (inl (refl, refl)), refl)
update_badge_views-IsExact true true rows table =
    (inr (inr ((λ b v. select_badges-counts b v rows), select_badges-total rows)), refl)
