-- ===== src/Random.antt =====
-- RandomString of common/utils/misc.go. What crypto/rand gives is a parameter. A text is the list of
-- its code points.
pub mod Laws
mod Tests
use potat_api.Base.{ℕ, ◌+◌, ◌/◌, ◌%◌, Option, none, some, List, [], ◌∷◌, ltb, if◌then◌else◌}

-- hex.EncodeToString, as code points: two digits for each byte.
abbrev pub hex_digit : ℕ → ℕ
hex_digit d = if ltb d 10 then 48 + d else 87 + d

unfoldable pub encode_to_string : List ℕ → List ℕ
encode_to_string [] = []
encode_to_string (b ∷ bs) = hex_digit (b / 16) ∷ hex_digit (b % 16) ∷ encode_to_string bs

abbrev pub encoded : Option (List ℕ) → Option (List ℕ)
encoded none = none
encoded (some bs) = some (encode_to_string bs)

-- `read n` fills a buffer of `n` bytes, or fails.
unfoldable pub random_string : (ℕ → Option (List ℕ)) → ℕ → Option (List ℕ)
unfolding encode_to_string
random_string read n = encoded (read (n / 2))
