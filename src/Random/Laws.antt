-- ===== src/Random/Laws.antt =====
-- How long a random text is, and that it holds all that was drawn.
use potat_api.Base.{
  ℕ, ◌+◌, ◌-◌, ◌*◌, ◌/◌, ◌%◌, ◌<◌, ◌≡◌, ◌⊎◌, inl, inr, refl, Option, none, some, List, [], ◌∷◌,
  length, ltb, if◌then◌else◌, Option-cases, All, arith,
}
use potat_api.Random.{hex_digit, encode_to_string, random_string}

abbrev pub digit_value : ℕ → ℕ
digit_value c = if ltb c 58 then c - 48 else c - 87

-- hex.DecodeString, where the text has an even number of digits.
unfoldable pub decode_string : List ℕ → List ℕ
decode_string [] = []
decode_string (c ∷ []) = []
decode_string (c ∷ d ∷ cs) = (digit_value c * 16 + digit_value d) ∷ decode_string cs

decode_string-encode :
    (bs : List ℕ) → All (λ b. b < 256) bs → decode_string (encode_to_string bs) ≡ bs
unfolding decode_string encode_to_string
decode_string-encode [] h = refl
decode_string-encode (b ∷ bs) (small, h) =
    let same : digit_value (hex_digit (b / 16)) * 16 + digit_value (hex_digit (b % 16)) ≡ b =
      ground arith in
    rw (same, decode_string-encode bs h) refl

length-encode : (bs : List ℕ) → length (encode_to_string bs) ≡ 2 * length bs
unfolding encode_to_string
length-encode [] = omega arith
length-encode (b ∷ bs) = omega (arith, length-encode bs)

-- A random text of length n is given exactly if the source gives bytes. It then has n characters
-- for an even n and n - 1 for an odd one, and decodes to the very bytes that were drawn.
pub random_string-decodes :
    (read : ℕ → Option (List ℕ)) (n : ℕ)
    → ((k : ℕ) (bs : List ℕ) → read k ≡ some bs → (length bs ≡ k) × All (λ b. b < 256) bs)
    → ((read (n / 2) ≡ none) × (random_string read n ≡ none))
      ⊎ ((text : List ℕ) × (random_string read n ≡ some text)
          × (length text ≡ n - n % 2)
          × (read (n / 2) ≡ some (decode_string text)))
unfolding random_string
random_string-decodes read n fills = elim (Option-cases (read (n / 2))) [
  | inl failed ↦ inl (failed, rw failed refl)
  | inr (bs, drawn) ↦
      let (long, bytes) = fills (n / 2) bs drawn in
      inr (
        encode_to_string bs,
        rw drawn refl,
        omega (arith, length-encode bs, long),
        rw (decode_string-encode bs bytes) drawn,
      )
]
