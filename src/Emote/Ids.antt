-- ===== src/Emote/Ids.antt =====
-- IsObjectID and IsULID of common/normalemote.go: the two regular expressions, anchored at both
-- ends, as tests of length and of every character.
use potat_api.Base.{
  ℕ, ◌≡◌, refl, String, Bool, true, ◌&&◌, ◌||◌, List, [], ◌∷◌, codes, leb, length, all, ◌==◌, arith,
}

abbrev between : ℕ → ℕ → ℕ → Bool
between lo hi c = leb lo c && leb c hi

-- `[0-9a-fA-F]`
abbrev pub is_hex : ℕ → Bool
is_hex c = between b'0' b'9' c || between b'a' b'f' c || between b'A' b'F' c

-- `[0-9A-HJ-NP-Z]`
abbrev pub is_ulid_char : ℕ → Bool
is_ulid_char c =
    between b'0' b'9' c || between b'A' b'H' c || between b'J' b'N' c || between b'P' b'Z' c

unfoldable pub is_object_id : String → Bool
is_object_id id = length (codes id) == 24 && all is_hex (codes id)

unfoldable pub is_ulid : String → Bool
is_ulid id = length (codes id) == 26 && all is_ulid_char (codes id)

-- The alphabet of a ULID, Crockford's base 32 in capitals: no I, L, O or U.
abbrev pub crockford : ℕ → Bool
crockford c =
    between b'0' b'9' c
    || between b'A' b'H' c
    || between b'J' b'K' c
    || between b'M' b'N' c
    || between b'P' b'T' c
    || between b'V' b'Z' c

all_mono :
    (p q : ℕ → Bool) (l : List ℕ)
    → ((c : ℕ) → p c ≡ true → q c ≡ true)
    → all p l ≡ true
    → all q l ≡ true
all_mono p q [] h k = refl
all_mono p q (c ∷ l) h k = ground (arith, h c, all_mono p q l h)

-- Every ULID in capitals, 26 characters over Crockford's alphabet, is accepted.
pub is_ulid_of_crockford :
    (id : String) → length (codes id) ≡ 26 → all crockford (codes id) ≡ true → is_ulid id ≡ true
unfolding is_ulid
is_ulid_of_crockford id n a =
    ground (arith, all_mono crockford is_ulid_char (codes id) (λ c h. ground arith))

-- The letter U, which no ULID has, is accepted.
is_ulid_accepts_u : is_ulid "01ARZ3NDEKTSV4RRFFQ69G5FUU" ≡ true
unfolding is_ulid
is_ulid_accepts_u = refl
