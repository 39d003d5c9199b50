-- ===== src/Views/Tests.antt =====
-- Three badges of two users, and the colors of three.
use mathlib.Core.List.{Perm}
use mathlib.Core.List.Perm
use potat_api.Base.{
  ℕ, ◌*◌, ◌≤◌, ◌≡◌, refl, inl, inr, true, List, [], ◌∷◌, All, length, leb, Bool-cases,
  if◌then◌else◌, arith,
}
use potat_api.Views.Colors.{ColorRow, Group, user_count, IsDescending, Engine, select_colors}
use potat_api.Views.{
  Badge, update_active_badge_view, update_user_owned_badge_view, refresh_view, select_badges,
  count_row, select_users, user_badges, distinct,
}

abbrev badges : List Badge
badges =
    record { badge = "vip"; user_id = "1"; version = "1" }
    ∷ record { badge = "NOBADGE"; user_id = "2"; version = "1" }
    ∷ record { badge = "vip"; user_id = "2"; version = "1" }
    ∷ []

two_vips :
    update_active_badge_view true true badges []
    ≡ record { badge = "vip"; version = "1"; user_count = 2 } ∷ []
unfolding update_active_badge_view refresh_view select_badges count_row
two_vips = refl

too_few : update_user_owned_badge_view true true badges [] ≡ []
unfolding update_user_owned_badge_view refresh_view select_users user_badges distinct
too_few = refl

abbrev insert_group : Group → List Group → List Group
insert_group g [] = g ∷ []
insert_group g (h ∷ hs) =
    let rest = h ∷ insert_group g hs in
    if leb (user_count h) (user_count g) then g ∷ h ∷ hs else rest

abbrev sort_groups : List Group → List Group
sort_groups [] = []
sort_groups (g ∷ gs) = insert_group g (sort_groups gs)

insert_group-Perm : (g : Group) (gs : List Group) → Perm (insert_group g gs) (g ∷ gs)
insert_group-Perm g [] = Perm.refl (g ∷ [])
insert_group-Perm g (h ∷ hs) = elim (Bool-cases (leb (user_count h) (user_count g))) [
  | inl yes' ↦ rw yes' (Perm.refl (g ∷ h ∷ hs))
  | inr no' ↦ rw no' (Perm.trans (Perm.cons h (insert_group-Perm g hs)) (Perm.swap g h hs))
]

sort_groups-Perm : (gs : List Group) → Perm (sort_groups gs) gs
sort_groups-Perm [] = Perm.refl []
sort_groups-Perm (g ∷ gs) =
    Perm.trans (insert_group-Perm g (sort_groups gs)) (Perm.cons g (sort_groups-Perm gs))

-- A bound on the counts of a list.
abbrev AtMost : ℕ → List Group → Type 0
AtMost n gs = All (λ h. user_count h ≤ n) gs

AtMost-mono : (m n : ℕ) (gs : List Group) → m ≤ n → AtMost m gs → AtMost n gs
AtMost-mono m n [] h k = tt
AtMost-mono m n (g ∷ gs) h (one, k) = (omega arith, AtMost-mono m n gs h k)

AtMost-insert_group :
    (n : ℕ) (g : Group) (gs : List Group)
    → user_count g ≤ n
    → AtMost n gs
    → AtMost n (insert_group g gs)
AtMost-insert_group n g [] h k = (h, tt)
AtMost-insert_group n g (x ∷ gs) h (one, k) =
    elim (Bool-cases (leb (user_count x) (user_count g))) [
      | inl yes' ↦ rw yes' (h, (one, k))
      | inr no' ↦ rw no' (one, AtMost-insert_group n g gs h k)
    ]

insert_group-IsDescending :
    (g : Group) (gs : List Group) → IsDescending gs → IsDescending (insert_group g gs)
insert_group-IsDescending g [] h = (tt, tt)
insert_group-IsDescending g (x ∷ gs) (most, h) =
    elim (Bool-cases (leb (user_count x) (user_count g))) [
      | inl yes' ↦
          let le : user_count x ≤ user_count g = ground arith in
          rw yes' ((le, AtMost-mono (user_count x) (user_count g) gs le most), (most, h))
      | inr no' ↦
          let le : user_count g ≤ user_count x = ground arith in
          rw no' (AtMost-insert_group (user_count x) g gs le most, insert_group-IsDescending g gs h)
    ]

sort_groups-IsDescending : (gs : List Group) → IsDescending (sort_groups gs)
sort_groups-IsDescending [] = tt
sort_groups-IsDescending (g ∷ gs) =
    insert_group-IsDescending g (sort_groups gs) (sort_groups-IsDescending gs)

all_rows-length : (rows : List ColorRow) → length rows ≤ length rows
all_rows-length rows = omega arith

abbrev engine : Engine
engine = record {
  Float64 = ℕ × ℕ;
  percentage_of = λ n d. (n * 100, d);
  final = λ rows. rows;
  final-length = all_rows-length;
  order = sort_groups;
  order-Perm = sort_groups-Perm;
  order-IsDescending = sort_groups-IsDescending;
}

abbrev colors : List ColorRow
colors =
    record { color = "#fff"; user_id = "1" }
    ∷ record { color = "#f00"; user_id = "2" }
    ∷ record { color = "#f00"; user_id = "3" }
    ∷ []

red_first :
    select_colors engine colors
    ≡ record { color = "#f00"; user_count = 2; percentage = (200, 3); rank = 1 }
      ∷ record { color = "#fff"; user_count = 1; percentage = (100, 3); rank = 2 }
      ∷ []
unfolding select_colors
red_first = refl
