-- ===== src/Emote/Url/Laws.antt =====
-- When an emote's URL can be built, and what its size does.
use potat_api.Base.{ℕ, ◌≤◌, ◌≡◌, refl, String, Bool, false, ◌||◌, List, [], ◌∷◌, none, arith, ◌↔◌}
use potat_api.Emote.Url.{lower_is, clamp_size, emote_id_to_url}

abbrev pub known_names : List String
known_names = "ffz" ∷ "7tv" ∷ "stv" ∷ "bttv" ∷ "twitch" ∷ "discord" ∷ "kick" ∷ []

abbrev pub lower_among : String → List String → Bool
lower_among s [] = false
lower_among s (name ∷ names) = lower_is s name || lower_among s names

-- The size is brought into 1 to 4 and kept where it lies there.
clamp_size_bounds :
    (size : ℕ)
    → (1 ≤ clamp_size size) × (clamp_size size ≤ 4) × (1 ≤ size → size ≤ 4 → clamp_size size ≡ size)
unfolding clamp_size
clamp_size_bounds size = ground arith

-- The call fails exactly when the provider, in lower case, is none of the seven known names; and it
-- gives for every size the URL of that size brought into the range 1 to 4.
pub emote_id_to_url-eq-none_iff :
    (id provider : String) (size : ℕ)
    → ((emote_id_to_url id provider size ≡ none) ↔ (lower_among provider known_names ≡ false))
      × (emote_id_to_url id provider size ≡ emote_id_to_url id provider (clamp_size size))
      × (1 ≤ clamp_size size)
      × (clamp_size size ≤ 4)
unfolding emote_id_to_url
emote_id_to_url-eq-none_iff id provider size =
    let (low, high, same) = clamp_size_bounds size in
    let (low', high', same') = clamp_size_bounds (clamp_size size) in
    (ground arith, rw (same' low high) refl, low, high)
