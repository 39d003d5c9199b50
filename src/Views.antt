-- ===== src/Views.antt =====
-- The badge views of common/db/loops.go, which ClickHouse computes: updateActiveBadgeView,
-- updateOwnedBadgeView and updateUserOwnedBadgeView. A table is the list of its rows, none of whose
-- columns is NULL; the time column and the order of rows are left out, and FINAL gives the rows that
-- are the argument here.
pub mod Colors
pub mod Laws
mod Tests
use potat_api.Base.{
  ℕ, suc, ◌+◌, String, Bool, true, false, not, ◌&&◌, ◌||◌, List, [], ◌∷◌, length, map, filter, leb,
  str_eq, if◌then◌else◌,
}

-- A row of twitch_badges or twitch_owned_badges.
pub record Badge : Type 0 where
  pub badge : String
  pub user_id : String
  pub version : String

-- A row of the two views by badge and version.
pub record BadgeStats : Type 0 where
  pub badge : String
  pub version : String
  pub user_count : ℕ

-- badge NOT IN ('', 'NOBADGE')
abbrev pub is_shown : String → Bool
is_shown badge = not (str_eq badge "" || str_eq badge "NOBADGE")

abbrev pub is_group : String → String → BadgeStats → Bool
is_group badge version stats = str_eq stats.badge badge && str_eq stats.version version

unfoldable pub count_row : Badge → List BadgeStats → List BadgeStats
count_row row [] = record { badge = row.badge; version = row.version; user_count = 1 } ∷ []
count_row row (stats ∷ rest) =
    let later = count_row row rest in
    if is_group row.badge row.version stats
    then record stats { user_count = stats.user_count + 1 } ∷ rest
    else stats ∷ later

-- SELECT badge, count(user_id), version ... GROUP BY (badge, version)
unfoldable pub select_badges : List Badge → List BadgeStats
unfolding count_row
select_badges [] = []
select_badges (row ∷ rows) =
    let rest = select_badges rows in if is_shown row.badge then count_row row rest else rest

-- A view is truncated and filled again, by two statements that may each fail.
unfoldable pub refresh_view : {A : Type 0} → Bool → Bool → List A → List A → List A
refresh_view truncated inserted selected table =
    if truncated then if inserted then selected else [] else table

unfoldable pub update_active_badge_view :
    Bool → Bool → List Badge → List BadgeStats → List BadgeStats
unfolding refresh_view select_badges
update_active_badge_view truncated inserted badges table =
    refresh_view truncated inserted (select_badges badges) table

unfoldable pub update_owned_badge_view :
    Bool → Bool → List Badge → List BadgeStats → List BadgeStats
unfolding refresh_view select_badges
update_owned_badge_view truncated inserted owned table =
    refresh_view truncated inserted (select_badges owned) table

-- A row of the view by user.
pub record UserBadges : Type 0 where
  pub user_id : String
  pub badge_count : ℕ
  pub badges : List String

abbrev pub has_text : String → List String → Bool
has_text s [] = false
has_text s (t ∷ ts) = str_eq s t || has_text s ts

unfoldable pub distinct : List String → List String
distinct [] = []
distinct (s ∷ ss) = let rest = distinct ss in if has_text s rest then rest else s ∷ rest

abbrev pub badges_of : String → List Badge → List String
badges_of user rows = map (λ row. row.badge) (filter (λ row. str_eq row.user_id user) rows)

unfoldable pub user_badges : List Badge → String → UserBadges
unfolding distinct
user_badges rows user = record {
  user_id = user;
  badge_count = length (badges_of user rows);
  badges = distinct (badges_of user rows);
}

-- GROUP BY user_id HAVING uniqExact(badge) >= 5
unfoldable pub select_users : List Badge → List UserBadges
unfolding user_badges distinct
select_users owned =
    let rows = filter (λ row. is_shown row.badge) owned in
    filter (λ r. leb 5 (length r.badges))
      (map (user_badges rows) (distinct (map (λ row. row.user_id) rows)))

unfoldable pub update_user_owned_badge_view :
    Bool → Bool → List Badge → List UserBadges → List UserBadges
unfolding refresh_view select_users
update_user_owned_badge_view truncated inserted owned table =
    refresh_view truncated inserted (select_users owned) table
