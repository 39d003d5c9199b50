-- ===== src/Durations.antt =====
-- Humanize of common/utils/misc.go. A duration is in whole milliseconds and not
-- negative; for such durations the floating-point quotients of Hours and Minutes are exact enough
-- to have the whole part of the true quotient.
pub mod Laws
mod Tests
use Prim.Native.String.{◌++◌ as append}
use potat_api.Base.{
  ℕ, zero, suc, ◌+◌, ◌-◌, ◌*◌, ◌/◌, ◌%◌, String, Bool, true, false, Option, none, some, List, [],
  ◌∷◌, ◌++◌, map, length, take, ltb, leb, ◌==◌, if◌then◌else◌,
}
use potat_api.Base.Int.{ℤ, pos, negsuc}
use potat_api.Base.Decimal.{decimal}

-- A number with its unit.
pub record Part : Type 0 where
  pub amount : ℕ
  pub suffix : String

abbrev pub second : ℕ
second = 1000

abbrev pub minute : ℕ
minute = 60000

abbrev pub hour : ℕ
hour = 3600000

abbrev pub day : ℕ
day = 86400000

abbrev pub month : ℕ
month = 2592000000

abbrev pub year : ℕ
year = 31536000000

abbrev pub part : ℕ → String → Part
part n s = record { amount = n; suffix = s }

-- One of the first four tests: a part if the unit fits, and what is left then.
unfoldable pub split_off : ℕ → String → ℕ → List Part × ℕ
split_off unit suffix ms =
    if leb unit ms then (part (ms / unit) suffix ∷ [], ms - (ms / unit) * unit) else ([], ms)

unfoldable pub minutes_of : ℕ → List Part × ℕ
minutes_of ms =
    if leb minute ms
    then (part ((ms / minute) % 60) "m" ∷ [], ms - (ms / minute) * minute)
    else ([], ms)

unfoldable pub seconds_of : ℕ → List Part
seconds_of ms = if leb second ms then part ((ms / second) % 60) "s" ∷ [] else []

unfoldable pub parts : ℕ → List Part
unfolding split_off minutes_of seconds_of
parts ms =
    let (ys, ms1) = split_off year "y" ms in
    let (os, ms2) = split_off month "mo" ms1 in
    let (ds, ms3) = split_off day "d" ms2 in
    let (hs, ms4) = split_off hour "h" ms3 in
    let (ns, ms5) = minutes_of ms4 in ys ++ (os ++ (ds ++ (hs ++ (ns ++ seconds_of ms5))))

unfoldable pub print : Part → String
print p = append (decimal p.amount) p.suffix

-- `strings.Join(parts, " ")`
unfoldable pub join : List String → String
join [] = ""
join (s ∷ []) = s
join (s ∷ t ∷ ts) = append s (append " " (join (t ∷ ts)))

-- The slice `result[:limit]`, where a negative limit is a panic.
unfoldable pub limited : ℤ → List Part → Option (List Part)
limited (pos n) ps = some (take n ps)
limited (negsuc n) ps = none

abbrev pub printed : Option (List Part) → Option String
printed none = none
printed (some ps) = some (join (map print ps))

unfoldable pub humanize : ℕ → ℤ → Option String
unfolding parts print join limited
humanize ms limit = if ms == 0 then some "0s" else printed (limited limit (parts ms))
