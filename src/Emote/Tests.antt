-- ===== src/Emote/Tests.antt =====
-- Emotes at concrete inputs.
use potat_api.Base.{◌≡◌, ◌≢◌, refl, String, true, false, none, some, eq_iff, str_eq}
use potat_api.Base.Decimal.{itoa}
use potat_api.Base.Int.{pos, negsuc}
use potat_api.Emote.Url.{lower_is, clamp_size, emote_id_to_url}
use potat_api.Emote.Ids.{is_ulid, is_ulid_of_crockford}
use potat_api.Emote.Normalize.{
  StvEmote, NormalEmote, stv, built, resolve_set, fill, fill_stv, check_names, new_normal_emote,
}
use potat_api.Emote.Normalize.Laws.{Describes, new_normal_emote-Describes}

itoa_tests : (itoa (pos 1024) ≡ "1024") × (itoa (negsuc 6) ≡ "-7") × (itoa (pos 0) ≡ "0")
unfolding itoa
itoa_tests = (refl, refl, refl)

url_tests :
    (emote_id_to_url "9" "FfZ" 9 ≡ some "https://cdn.frankerfacez.com/emote/9/4")
    × (emote_id_to_url "x" "youtube" 2 ≡ none)
unfolding emote_id_to_url lower_is clamp_size itoa
url_tests = (refl, refl)

abbrev sadge : StvEmote
sadge = record {
  id = "01F";
  name = "Sadge2";
  data_name = "Sadge";
  data_id = "01F";
  data_animated = true;
}

abbrev sadge_normal : NormalEmote
sadge_normal = record {
  alias = some "Sadge2";
  url = some "https://cdn.7tv.app/emote/01F/4x.avif";
  name = "Sadge";
  id = "01F";
  set_id = "s1";
  provider = "STV";
  kind = "CHANNEL";
  platform = "TWITCH";
  animated = true;
}

sadge_done : new_normal_emote (stv sadge) "s1" "STV" "CHANNEL" false "TWITCH" ≡ built sadge_normal
unfolding new_normal_emote resolve_set fill fill_stv check_names emote_id_to_url lower_is clamp_size
    itoa
sadge_done = refl

new_normal_emote-Describes_example :
    ◌≢◌ {A = String} "s1" ""
    × (sadge_normal.set_id ≡ "s1")
    × (sadge_normal.provider ≡ "STV")
    × (sadge_normal.kind ≡ "CHANNEL")
    × (sadge_normal.platform ≡ "TWITCH")
    × (sadge_normal.id ≢ "")
    × (sadge_normal.name ≢ "")
    × Describes (stv sadge) sadge_normal
new_normal_emote-Describes_example =
    new_normal_emote-Describes (stv sadge) "s1" "STV" "CHANNEL" false "TWITCH" sadge_normal
      sadge_done

text_ne : (s t : String) → str_eq s t ≡ false → s ≢ t
text_ne s t h e = cc ((eq_iff s t).1 e)

is_ulid_run : is_ulid "01ARZ3NDEKTSV4RRFFQ69G5FAV" ≡ true
is_ulid_run = is_ulid_of_crockford "01ARZ3NDEKTSV4RRFFQ69G5FAV" refl refl
