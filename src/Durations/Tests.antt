-- ===== src/Durations/Tests.antt =====
-- Some durations.
use potat_api.Base.{◌*◌, ◌/◌, ◌≤◌, ◌≡◌, refl, none, some, length, All}
use potat_api.Base.Int.{pos, negsuc}
use potat_api.Base.Decimal.{decimal}
use potat_api.Durations.{parts, humanize, split_off, minutes_of, seconds_of, join, print, limited}
use potat_api.Durations.Laws.{total, IsWithin, parts-IsExact}

two_parts : humanize 93784005 (pos 2) ≡ some "1d 2h"
unfolding humanize parts split_off minutes_of seconds_of limited print join decimal
two_parts = refl

negative_limit : humanize 93784005 (negsuc 0) ≡ none
unfolding humanize parts split_off minutes_of seconds_of limited print join decimal
negative_limit = refl

parts-IsExact_example :
    (total (parts 93784005) ≡ (93784005 / 1000) * 1000)
    × All IsWithin (parts 93784005)
    × (length (parts 93784005) ≤ 6)
parts-IsExact_example = parts-IsExact 93784005
