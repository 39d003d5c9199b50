-- ===== src/Emote/Url.antt =====
-- EmoteIDToURL of common/normalemote.go. strings.ToLower is modelled on ASCII letters.
pub mod Laws
use Prim.Native.String.{◌++◌}
use potat_api.Base.{
  ℕ, ◌+◌, String, Bool, true, false, ◌&&◌, ◌||◌, List, [], ◌∷◌, Option, none, some, map, codes, leb,
  ltb, ◌==◌, str_eq, if◌then◌else◌,
}
use potat_api.Base.Decimal.{decimal}

abbrev pub lower_code : ℕ → ℕ
lower_code c = if leb b'A' c && leb c b'Z' then c + 32 else c

abbrev pub eq_codes : List ℕ → List ℕ → Bool
eq_codes [] [] = true
eq_codes (x ∷ xs) (y ∷ ys) = x == y && eq_codes xs ys
eq_codes _ _ = false

-- Whether `strings.ToLower(s)` is `name`.
unfoldable pub lower_is : String → String → Bool
lower_is s name = eq_codes (map lower_code (codes s)) (codes name)

-- The size after the two comparisons.
unfoldable pub clamp_size : ℕ → ℕ
clamp_size size = if ltb size 1 then 1 else if ltb 4 size then 4 else size

-- `none` is errInvalidEmoteProvider.
unfoldable pub emote_id_to_url : String → String → ℕ → Option String
emote_id_to_url id provider size =
    let n = decimal (clamp_size size) in
    if lower_is provider "ffz"
    then some ("https://cdn.frankerfacez.com/emote/" ++ id ++ "/" ++ n)
    else if lower_is provider "7tv" || lower_is provider "stv"
    then some ("https://cdn.7tv.app/emote/" ++ id ++ "/" ++ n ++ "x.avif")
    else if lower_is provider "bttv"
    then some ("https://cdn.betterttv.net/emote/" ++ id ++ "/" ++ n ++ "x")
    else if lower_is provider "twitch"
    then some ("https://static-cdn.jtvnw.net/emoticons/v2/" ++ id ++ "/default/dark/" ++ n ++ ".0")
    else if lower_is provider "discord"
    then some ("https://cdn.discordapp.com/emojis/" ++ id ++ ".webp?size=96&animated=true")
    else if lower_is provider "kick"
    then some ("https://files.kick.com/emotes/" ++ id ++ "/fullsize")
    else none
