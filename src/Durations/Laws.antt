-- ===== src/Durations/Laws.antt =====
-- What Humanize's parts add up to, and what RandomString's text holds.
use potat_api.Base.{
  ℕ, ◌+◌, ◌*◌, ◌/◌, ◌%◌, ◌≤◌, ◌<◌, ◌≡◌, String, Bool, true, List, [], ◌∷◌, ◌++◌, length, leb,
  str_eq, if◌then◌else◌, Bool-cases, inl, inr, All, length-append, arith,
}
use potat_api.Durations.{
  Part, second, minute, hour, day, month, year, split_off, minutes_of, seconds_of, parts,
}

-- The milliseconds of a unit.
abbrev pub unit_of : String → ℕ
unit_of s =
    if str_eq s "y"
    then year
    else if str_eq s "mo"
    then month
    else if str_eq s "d"
    then day
    else if str_eq s "h"
    then hour
    else if str_eq s "m"
    then minute
    else second

unfoldable pub total : List Part → ℕ
total [] = 0
total (p ∷ ps) = p.amount * unit_of p.suffix + total ps

-- The largest amount beside each unit.
abbrev pub most : String → ℕ → Bool
most s n =
    if str_eq s "y"
    then true
    else if str_eq s "mo"
    then leb n 12
    else if str_eq s "d"
    then leb n 29
    else if str_eq s "h"
    then leb n 23
    else leb n 59

total-append : (ps qs : List Part) → total (ps ++ qs) ≡ total ps + total qs
unfolding total
total-append [] qs = omega arith
total-append (p ∷ ps) qs = omega (arith, total-append ps qs)

abbrev pub IsWithin : Part → Type 0
IsWithin p = most p.suffix p.amount ≡ true

All-append : (ps qs : List Part) → All IsWithin ps → All IsWithin qs → All IsWithin (ps ++ qs)
All-append [] qs h k = k
All-append (p ∷ ps) qs (now, h) k = (now, All-append ps qs h k)

-- A split of a duration into parts and what is left, which is less than the bound.
record Split (bound ms : ℕ) (r : List Part × ℕ) : Type 0 where
  adds : total r.0 + r.1 ≡ ms
  below : r.1 < bound
  within : All IsWithin r.0
  few : length r.0 ≤ 1
  whole : total r.0 % 1000 ≡ 0

years : (ms : ℕ) → Split year ms (split_off year "y" ms)
unfolding split_off minutes_of total
years ms = elim (Bool-cases (leb year ms)) [
  | inl fits ↦ rw fits (record {
    adds = omega arith;
    below = omega arith;
    within = (ground arith, tt);
    few = omega arith;
    whole = omega arith;
  })
  | inr small ↦ rw small (record {
    adds = omega arith;
    below = ground arith;
    within = tt;
    few = omega arith;
    whole = omega arith;
  })
]

months : (ms : ℕ) → ms < year → Split month ms (split_off month "mo" ms)
unfolding split_off minutes_of total
months ms h = elim (Bool-cases (leb month ms)) [
  | inl fits ↦ rw fits (record {
    adds = omega arith;
    below = omega arith;
    within = (ground arith, tt);
    few = omega arith;
    whole = omega arith;
  })
  | inr small ↦ rw small (record {
    adds = omega arith;
    below = ground arith;
    within = tt;
    few = omega arith;
    whole = omega arith;
  })
]

days : (ms : ℕ) → ms < month → Split day ms (split_off day "d" ms)
unfolding split_off minutes_of total
days ms h = elim (Bool-cases (leb day ms)) [
  | inl fits ↦ rw fits (record {
    adds = omega arith;
    below = omega arith;
    within = (ground arith, tt);
    few = omega arith;
    whole = omega arith;
  })
  | inr small ↦ rw small (record {
    adds = omega arith;
    below = ground arith;
    within = tt;
    few = omega arith;
    whole = omega arith;
  })
]

hours : (ms : ℕ) → ms < day → Split hour ms (split_off hour "h" ms)
unfolding split_off minutes_of total
hours ms h = elim (Bool-cases (leb hour ms)) [
  | inl fits ↦ rw fits (record {
    adds = omega arith;
    below = omega arith;
    within = (ground arith, tt);
    few = omega arith;
    whole = omega arith;
  })
  | inr small ↦ rw small (record {
    adds = omega arith;
    below = ground arith;
    within = tt;
    few = omega arith;
    whole = omega arith;
  })
]

minutes : (ms : ℕ) → ms < hour → Split minute ms (minutes_of ms)
unfolding split_off minutes_of total
minutes ms h = elim (Bool-cases (leb minute ms)) [
  | inl fits ↦ rw fits (record {
    adds = omega arith;
    below = omega arith;
    within = (ground arith, tt);
    few = omega arith;
    whole = omega arith;
  })
  | inr small ↦ rw small (record {
    adds = omega arith;
    below = ground arith;
    within = tt;
    few = omega arith;
    whole = omega arith;
  })
]

seconds :
    (ms : ℕ)
    → ms < minute
    → (total (seconds_of ms) ≡ (ms / 1000) * 1000)
      × All IsWithin (seconds_of ms)
      × (length (seconds_of ms) ≤ 1)
unfolding seconds_of total
seconds ms h = elim (Bool-cases (leb second ms)) [
  | inl fits ↦ rw fits (omega arith, (ground arith, tt), omega arith)
  | inr small ↦ rw small (ground arith, tt, omega arith)
]

-- The parts of a duration add up to its whole seconds: nothing else is lost, and no time counts
-- twice. Each unit stands within its bound (12 months, 29 days, 23 hours, 59 minutes, 59 seconds),
-- and there are at most six parts.
pub parts-IsExact :
    (ms : ℕ)
    → (total (parts ms) ≡ (ms / 1000) * 1000) × All IsWithin (parts ms) × (length (parts ms) ≤ 6)
unfolding parts
parts-IsExact ms =
    let (ys, ms1) = split_off year "y" ms in
    let (os, ms2) = split_off month "mo" ms1 in
    let (ds, ms3) = split_off day "d" ms2 in
    let (hs, ms4) = split_off hour "h" ms3 in
    let (ns, ms5) = minutes_of ms4 in
    let y = years ms in
    let o = months ms1 y.below in
    let d = days ms2 o.below in
    let h = hours ms3 d.below in
    let n = minutes ms4 h.below in
    let (left, last, one) = seconds ms5 n.below in
    let ss = seconds_of ms5 in
    (
      rw
          (
            total-append ys (os ++ (ds ++ (hs ++ (ns ++ ss)))),
            total-append os (ds ++ (hs ++ (ns ++ ss))),
            total-append ds (hs ++ (ns ++ ss)),
            total-append hs (ns ++ ss),
            total-append ns ss,
            left,
          )
          (omega (
            arith, y.adds, o.adds, d.adds, h.adds, n.adds, y.whole, o.whole, d.whole, h.whole,
            n.whole,
          )),
      All-append ys _ y.within (
          All-append os _ o.within
            (All-append ds _ d.within (All-append hs _ h.within (All-append ns ss n.within last)))),
      rw
          (
            length-append ys (os ++ (ds ++ (hs ++ (ns ++ ss)))),
            length-append os (ds ++ (hs ++ (ns ++ ss))),
            length-append ds (hs ++ (ns ++ ss)),
            length-append hs (ns ++ ss),
            length-append ns ss,
          )
          (omega (arith, y.few, o.few, d.few, h.few, n.few, one)),
    )
