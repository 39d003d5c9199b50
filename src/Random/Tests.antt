-- ===== src/Random/Tests.antt =====
-- A source that gives zeros.
use potat_api.Base.{
  ℕ, zero, suc, ◌-◌, ◌/◌, ◌%◌, ◌<◌, ◌≡◌, ◌⊎◌, refl, Option, none, some, List, [], ◌∷◌, length,
  some_inj, All, arith,
}
use potat_api.Random.{random_string, encode_to_string}
use potat_api.Random.Laws.{decode_string, random_string-decodes}

abbrev zeros : ℕ → List ℕ
zeros zero = []
zeros (suc k) = 0 ∷ zeros k

zeros_fill : (k : ℕ) → (length (zeros k) ≡ k) × All (λ b. b < 256) (zeros k)
zeros_fill zero = (refl, tt)
zeros_fill (suc k) = let (long, bytes) = zeros_fill k in (omega (arith, long), (omega arith, bytes))

abbrev read : ℕ → Option (List ℕ)
read k = some (zeros k)

read-fills : (k : ℕ) (bs : List ℕ) → read k ≡ some bs → (length bs ≡ k) × All (λ b. b < 256) bs
read-fills k bs h = let e : zeros k ≡ bs = some_inj h in rw (← e) (zeros_fill k)

odd : random_string read 5 ≡ some (48 ∷ 48 ∷ 48 ∷ 48 ∷ [])
unfolding random_string encode_to_string
odd = refl

random_string-decodes_example :
    ((read (5 / 2) ≡ none) × (random_string read 5 ≡ none))
    ⊎ ((text : List ℕ) × (random_string read 5 ≡ some text)
        × (length text ≡ 5 - 5 % 2)
        × (read (5 / 2) ≡ some (decode_string text)))
random_string-decodes_example = random_string-decodes read 5 read-fills
