-- ===== src/Usage/Laws.antt =====
-- What the table of the channels' usage holds after its sweep.
use potat_api.Base.{
  ℕ, ◌+◌, ◌≡◌, refl, String, Bool, true, false, ◌||◌, Option, none, some, List, [], ◌∷◌, str_eq,
  eq_iff, lookup, assign, lookup-assign, if◌then◌else◌, Bool-cases, inl, inr, arith,
}
use potat_api.Usage.{CommandUsage, or_zero, sum_usage, upsert_usage, update_aggregate_table}

-- The rows of a channel: whether there are any, and the sum of their usage.
abbrev pub has_rows : String → List CommandUsage → Bool
has_rows ch [] = false
has_rows ch (row ∷ rows) = str_eq row.channel_id ch || has_rows ch rows

abbrev pub usage_of : String → List CommandUsage → ℕ
usage_of ch [] = 0
usage_of ch (row ∷ rows) =
    let rest = usage_of ch rows in
    if str_eq row.channel_id ch then row.channel_usage + rest else rest

abbrev sum_of : String → List CommandUsage → Option ℕ
sum_of ch rows = if has_rows ch rows then some (usage_of ch rows) else none

-- Each key stands once.
abbrev IsKeyed : List (String × ℕ) → Type 0
IsKeyed [] = Unit
IsKeyed ((k, n) ∷ m) = (lookup k m ≡ none) × IsKeyed m

assign-IsKeyed : (k : String) (n : ℕ) (m : List (String × ℕ)) → IsKeyed m → IsKeyed (assign k n m)
unfolding assign lookup
assign-IsKeyed k n [] h = (refl, tt)
assign-IsKeyed k n ((j, v) ∷ m) (new, h) = elim (Bool-cases (str_eq j k)) [
  | inl same ↦ let e : j ≡ k = (eq_iff j k).0 same in rw same (rw (← e) new, h)
  | inr other ↦
      rw other
        (ground (arith, lookup-assign k j n m, eq_iff j k, eq_iff k j), assign-IsKeyed k n m h)
]

sum_usage-IsKeyed : (rows : List CommandUsage) → IsKeyed (sum_usage rows)
unfolding sum_usage
sum_usage-IsKeyed [] = tt
sum_usage-IsKeyed (row ∷ rows) =
    let sums = sum_usage rows in
    assign-IsKeyed row.channel_id (row.channel_usage + or_zero (lookup row.channel_id sums)) sums
      (sum_usage-IsKeyed rows)

unused : (ch : String) (rows : List CommandUsage) → has_rows ch rows ≡ false → usage_of ch rows ≡ 0
unused ch [] h = refl
unused ch (row ∷ rows) h = ground (arith, unused ch rows)

or_zero-sum_of :
    (ch : String) (rows : List CommandUsage) → or_zero (sum_of ch rows) ≡ usage_of ch rows
or_zero-sum_of ch rows = ground (arith, unused ch rows)

lookup-sum_usage :
    (ch : String) (rows : List CommandUsage) → lookup ch (sum_usage rows) ≡ sum_of ch rows
unfolding sum_usage
lookup-sum_usage ch [] = refl
lookup-sum_usage ch (row ∷ rows) =
    let id = row.channel_id in
    let n = row.channel_usage + or_zero (lookup id (sum_usage rows)) in
    rw
      (
        lookup-assign id ch n (sum_usage rows),
        lookup-sum_usage ch rows,
        lookup-sum_usage id rows,
        or_zero-sum_of id rows,
      )
      (elim (Bool-cases (str_eq id ch)) [
        | inl same ↦ rw (same, (eq_iff id ch).0 same) refl
        | inr other ↦ rw other refl
      ])

abbrev or_old : Option ℕ → Option ℕ → Option ℕ
or_old none old = old
or_old (some n) old = some n

lookup-upsert_usage :
    (ch : String) (sums table : List (String × ℕ))
    → IsKeyed sums
    → lookup ch (upsert_usage sums table) ≡ or_old (lookup ch sums) (lookup ch table)
unfolding upsert_usage lookup
lookup-upsert_usage ch [] table h = refl
lookup-upsert_usage ch ((k, n) ∷ sums) table (new, h) = elim (Bool-cases (str_eq k ch)) [
  | inl same ↦
      let e : k ≡ ch = (eq_iff k ch).0 same in
      let gone : lookup ch sums ≡ none = rw (← e) new in
      rw (lookup-upsert_usage ch sums (assign k n table) h, gone, lookup-assign k ch n table, same)
        refl
  | inr other ↦
      rw (lookup-upsert_usage ch sums (assign k n table) h, lookup-assign k ch n table, other) refl
]

-- After a run of the sweep that the database accepts, the table has for each channel with rows in
-- command_settings the sum of their usage, whatever it had before, and for every other channel what
-- it had.
pub update_aggregate_table-sums :
    (ch : String) (settings : List CommandUsage) (table : List (String × ℕ))
    → lookup ch (update_aggregate_table true settings table)
      ≡ (if has_rows ch settings then some (usage_of ch settings) else lookup ch table)
unfolding update_aggregate_table
update_aggregate_table-sums ch settings table =
    rw
      (
        lookup-upsert_usage ch (sum_usage settings) table (sum_usage-IsKeyed settings),
        lookup-sum_usage ch settings,
      )
      (elim (Bool-cases (has_rows ch settings)) [
        | inl there ↦ rw there refl
        | inr missing ↦ rw missing refl
      ])
