-- ===== src/Views/Colors.antt =====
-- updateColorView of common/db/loops.go. ClickHouse is the record Engine, its Float64 and the division
-- of two numbers among it.
use mathlib.Core.Logic.{∥∥₁_elim}
use native.Mathlib.Nat.{ℕ_set}
use mathlib.Core.List.{Perm, Permᴰ}
use potat_api.Base.{
  ℕ, suc, ◌+◌, ◌≤◌, ◌≡◌, refl, ap, ◌∙◌, String, Bool, Option, none, some, List, [], ◌∷◌, ◌++◌, All,
  length, lookup, assign, if◌then◌else◌, arith,
}
use potat_api.Views.{has_text}

-- A row of twitch_colors.
pub record ColorRow : Type 0 where
  pub color : String
  pub user_id : String

-- A group of the query: a color, and the distinct users that have it.
abbrev pub Group : Type 0
Group = String × List String

abbrev pub user_count : Group → ℕ
user_count group = length group.1

abbrev pub IsDescending : List Group → Type 0
IsDescending [] = Unit
IsDescending (g ∷ gs) = All (λ h. user_count h ≤ user_count g) gs × IsDescending gs

pub record Engine : Type 1 where
  -- Float64, and (n * 100.0) / d.
  pub Float64 : Type 0
  pub percentage_of : ℕ → ℕ → Float64
  -- FINAL merges rows, and makes none.
  pub final : List ColorRow → List ColorRow
  pub final-length : (rows : List ColorRow) → length (final rows) ≤ length rows
  -- ORDER BY COUNT(DISTINCT user_id) DESC
  pub order : List Group → List Group
  pub order-Perm : (groups : List Group) → Perm (order groups) groups
  pub order-IsDescending : (groups : List Group) → IsDescending (order groups)

-- A row of the view.
pub record ColorStats (F : Type 0) : Type 0 where
  pub color : String
  pub user_count : ℕ
  pub percentage : F
  pub rank : ℕ

abbrev pub add_user : String → List String → List String
add_user user users = if has_text user users then users else user ∷ users

abbrev pub or_nobody : Option (List String) → List String
or_nobody none = []
or_nobody (some users) = users

-- GROUP BY color
unfoldable pub group_colors : List ColorRow → List Group
unfolding lookup assign
group_colors [] = []
group_colors (row ∷ rows) =
    let groups = group_colors rows in
    assign row.color (add_user row.user_id (or_nobody (lookup row.color groups))) groups

-- ROW_NUMBER(), from the given number on.
unfoldable pub rank_from : {F : Type 0} → (ℕ → F) → ℕ → List Group → List (ColorStats F)
rank_from percentage n [] = []
rank_from percentage n (group ∷ groups) =
    record {
      color = group.0;
      user_count = user_count group;
      percentage = percentage (user_count group);
      rank = n;
    }
    ∷ rank_from percentage (suc n) groups

module _ (e : Engine) where
  -- The rows of the query; the rows of the table are counted without FINAL.
  unfoldable pub select_colors : List ColorRow → List (ColorStats e.Float64)
  unfolding group_colors rank_from
  select_colors table =
      rank_from (λ n. e.percentage_of n (length table)) 1 (e.order (group_colors (e.final table)))

  -- The view has what was inserted before, too.
  unfoldable pub update_color_view :
      Bool → List ColorRow → List (ColorStats e.Float64) → List (ColorStats e.Float64)
  unfolding select_colors
  update_color_view ok table view = if ok then view ++ select_colors table else view

abbrev pub sum_user_counts : {F : Type 0} → List (ColorStats F) → ℕ
sum_user_counts [] = 0
sum_user_counts (row ∷ rows) = row.user_count + sum_user_counts rows

-- Ranks go up by one, and no color has more users than one before it.
abbrev pub IsRanked : {F : Type 0} → ℕ → List (ColorStats F) → Type 0
IsRanked n [] = Unit
IsRanked n (row ∷ rows) =
    (row.rank ≡ n) × All (λ other. other.user_count ≤ row.user_count) rows × IsRanked (suc n) rows

abbrev sum_users : List Group → ℕ
sum_users [] = 0
sum_users (group ∷ groups) = user_count group + sum_users groups

sum_users-assign :
    (color : String) (users : List String) (groups : List Group)
    → sum_users (assign color users groups) + length (or_nobody (lookup color groups))
      ≡ sum_users groups + length users
unfolding assign lookup
sum_users-assign color users [] = omega arith
sum_users-assign color users ((c, us) ∷ groups) =
    ground (arith, sum_users-assign color users groups)

length-add_user :
    (user : String) (users : List String) → length (add_user user users) ≤ length users + 1
length-add_user user users = ground arith

sum_users-group_colors : (rows : List ColorRow) → sum_users (group_colors rows) ≤ length rows
unfolding group_colors
sum_users-group_colors [] = omega arith
sum_users-group_colors (row ∷ rows) =
    let groups = group_colors rows in
    let users = or_nobody (lookup row.color groups) in
    omega (
      arith,
      sum_users-group_colors rows,
      length-add_user row.user_id users,
      sum_users-assign row.color (add_user row.user_id users) groups,
    )

sum_users-Permᴰ : {gs hs : List Group} → Permᴰ gs hs → sum_users gs ≡ sum_users hs
sum_users-Permᴰ Permᴰ.nil = refl
sum_users-Permᴰ (Permᴰ.cons same p) = omega (arith, ap user_count same, sum_users-Permᴰ p)
sum_users-Permᴰ (Permᴰ.swap one two) = omega (arith, ap user_count one, ap user_count two)
sum_users-Permᴰ (Permᴰ.trans p q) = sum_users-Permᴰ p ∙ sum_users-Permᴰ q

sum_users-Perm : {gs hs : List Group} → Perm gs hs → sum_users gs ≡ sum_users hs
sum_users-Perm {gs} {hs} p = ∥∥₁_elim p (ℕ_set (sum_users gs) (sum_users hs)) sum_users-Permᴰ

module _ {F : Type 0} (percentage : ℕ → F) where
  sum_user_counts-rank_from :
      (n : ℕ) (groups : List Group)
      → sum_user_counts (rank_from percentage n groups) ≡ sum_users groups
  unfolding rank_from
  sum_user_counts-rank_from n [] = omega arith
  sum_user_counts-rank_from n (group ∷ groups) =
      omega (arith, sum_user_counts-rank_from (suc n) groups)

  All-rank_from :
      (n bound : ℕ) (groups : List Group)
      → All (λ h. user_count h ≤ bound) groups
      → All (λ other. other.user_count ≤ bound) (rank_from percentage n groups)
  unfolding rank_from
  All-rank_from n bound [] h = tt
  All-rank_from n bound (g ∷ groups) (one, h) = (one, All-rank_from (suc n) bound groups h)

  rank_from-IsRanked :
      (n : ℕ) (groups : List Group)
      → IsDescending groups
      → IsRanked n (rank_from percentage n groups)
  unfolding rank_from
  rank_from-IsRanked n [] h = tt
  rank_from-IsRanked n (g ∷ groups) (most, h) =
      (refl, All-rank_from (suc n) (user_count g) groups most, rank_from-IsRanked (suc n) groups h)

-- The colors of an update are ranked from 1 by their users, most first, and have together no more
-- users than the table has rows, by which their percentages are divided.
pub select_colors-IsRanked :
    (e : Engine) (table : List ColorRow)
    → IsRanked 1 (select_colors e table) × (sum_user_counts (select_colors e table) ≤ length table)
unfolding select_colors
select_colors-IsRanked e table =
    let groups = group_colors (e.final table) in
    let percentage : ℕ → e.Float64 = λ n. e.percentage_of n (length table) in
    (
      rank_from-IsRanked percentage 1 (e.order groups) (e.order-IsDescending groups),
      omega (
        arith,
        sum_user_counts-rank_from percentage 1 (e.order groups),
        sum_users-Perm (e.order-Perm groups),
        sum_users-group_colors (e.final table),
        e.final-length table,
      ),
    )
