-- ===== src/Emote/Normalize.antt =====
-- NewNormalEmote of common/normalemote.go. The fields of NormalEmote that it leaves nil (conflict,
-- new alias, error, count) are left out.
pub mod Laws
use potat_api.Base.{
  String, Bool, true, false, Option, none, some, List, [], ◌∷◌, str_eq, if◌then◌else◌, ◌||◌, ◌==◌,
}
use potat_api.Base.Decimal.{itoa}
use potat_api.Base.Int.{ℤ}
use potat_api.Emote.Url.{emote_id_to_url}

pub data Error : Type 0 where
  invalid_emote_data invalid_emote_provider no_set_id invalid_stv_emote : Error
  invalid_bttv_emote invalid_ffz_emote invalid_twitch_emote missing_id_or_name : Error

pub data Attempt (A : Type 0) : Type 0 where
  built : A → Attempt A
  refused : Error → Attempt A

pub record NormalEmote : Type 0 where
  pub alias : Option String
  pub url : Option String
  pub name : String
  pub id : String
  pub set_id : String
  pub provider : String
  pub kind : String
  pub platform : String
  pub animated : Bool

pub record StvEmote : Type 0 where
  pub id : String
  pub name : String
  pub data_name : String
  pub data_id : String
  pub data_animated : Bool

pub record BttvEmote : Type 0 where
  pub id : String
  pub code : String
  pub code_original : String
  pub animated : Bool

pub record FfzEmote : Type 0 where
  pub name : String
  pub id : ℤ
  pub animated : Bool

pub record TwitchEmote : Type 0 where
  pub id : String
  pub name : String
  pub url_4x : String
  pub format : List String

-- The dynamic types that `emoteData` is asked for, and any other.
pub data EmoteData : Type 0 where
  normal : NormalEmote → EmoteData
  stv : StvEmote → EmoteData
  bttv : BttvEmote → EmoteData
  ffz : FfzEmote → EmoteData
  twitch : TwitchEmote → EmoteData
  other : EmoteData

infixl 5 ◌>>=◌
abbrev pub ◌>>=◌ : {A B : Type 0} → Attempt A → (A → Attempt B) → Attempt B
built a >>= f = f a
refused e >>= f = refused e

-- `slices.Contains`
abbrev member : String → List String → Bool
member s [] = false
member s (t ∷ ts) = str_eq t s || member s ts

-- The set id to use: the caller's, or that of a NormalEmote.
unfoldable pub resolve_set : EmoteData → String → Attempt String
resolve_set (normal e) set =
    if str_eq set ""
    then if str_eq e.set_id "" then refused no_set_id else built e.set_id
    else built set
resolve_set _ set = if str_eq set "" then refused invalid_emote_data else built set

abbrev alias_if : String → String → Option String
alias_if shown original = if str_eq shown original then none else some shown

abbrev with_url : Option String → NormalEmote → Attempt NormalEmote
with_url none e = refused invalid_emote_provider
with_url (some u) e = built (record e { url = some u })

unfoldable pub fill_stv : EmoteData → NormalEmote → Attempt NormalEmote
fill_stv (stv d) e = with_url (emote_id_to_url d.id e.provider 4) (record e {
  id = d.id;
  name = d.data_name;
  alias = alias_if d.name d.data_name;
  animated = d.data_animated;
})
fill_stv _ e = refused invalid_stv_emote

unfoldable pub fill_bttv : EmoteData → NormalEmote → Attempt NormalEmote
fill_bttv (bttv d) e = with_url (emote_id_to_url d.id e.provider 4) (record e {
  id = d.id;
  name = d.code_original;
  alias = alias_if d.code d.code_original;
  animated = d.animated;
})
fill_bttv _ e = refused invalid_bttv_emote

unfoldable pub fill_ffz : EmoteData → NormalEmote → Attempt NormalEmote
fill_ffz (ffz d) e =
    with_url (emote_id_to_url (itoa d.id) e.provider 4)
      (record e { id = itoa d.id; name = d.name; animated = d.animated })
fill_ffz _ e = refused invalid_ffz_emote

unfoldable pub fill_twitch : EmoteData → NormalEmote → Attempt NormalEmote
fill_twitch (twitch d) e = built (record e {
  id = d.id;
  name = d.name;
  animated = member "animated" d.format;
  url = some d.url_4x;
})
fill_twitch _ e = refused invalid_twitch_emote

-- The switch on the provider.
unfoldable pub fill : EmoteData → NormalEmote → Attempt NormalEmote
fill d e =
    if str_eq e.provider "STV"
    then fill_stv d e
    else if str_eq e.provider "BTTV"
    then fill_bttv d e
    else if str_eq e.provider "FFZ"
    then fill_ffz d e
    else if str_eq e.provider "TWITCH"
    then fill_twitch d e
    else refused invalid_emote_provider

unfoldable pub check_names : NormalEmote → Attempt NormalEmote
check_names e = if str_eq e.id "" || str_eq e.name "" then refused missing_id_or_name else built e

-- NewNormalEmote
unfoldable pub new_normal_emote :
    EmoteData → String → String → String → Bool → String → Attempt NormalEmote
new_normal_emote d set provider kind animated platform = do
  set' ← resolve_set d set
  e ← fill d (record {
    alias = none;
    url = none;
    name = "";
    id = "";
    set_id = set';
    provider = provider;
    kind = kind;
    platform = platform;
    animated = animated;
  })
  check_names e
