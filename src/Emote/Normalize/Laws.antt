-- ===== src/Emote/Normalize/Laws.antt =====
-- What NewNormalEmote makes of an emote, and when it makes anything.
use potat_api.Base.{
  ◌≡◌, ◌∙◌, refl, ◌≢◌, ◌⊎◌, inl, inr, String, Bool, Option, none, some, eq_iff, arith,
}
use potat_api.Base.Decimal.{itoa}
use potat_api.Emote.Url.{lower_is, emote_id_to_url}
use potat_api.Emote.Normalize.{
  Error, Attempt, ◌>>=◌, built, refused, NormalEmote, EmoteData, normal, stv, bttv, ffz, twitch,
  other, member, resolve_set, fill_stv, fill_bttv, fill_ffz, fill_twitch, fill, check_names,
  new_normal_emote,
}

-- The alias is the shown name where that differs from the original one.
abbrev pub HasAlias : String → String → Option String → Type 0
HasAlias shown original alias =
    ((shown ≡ original) × (alias ≡ none)) ⊎ ((shown ≢ original) × (alias ≡ some shown))

-- The emote's fields as the provider gave them.
abbrev pub Describes : EmoteData → NormalEmote → Type 0
Describes (normal _) e = ⊥
Describes (stv d) e =
    (e.provider ≡ "STV")
    × (e.id ≡ d.id)
    × (e.name ≡ d.data_name)
    × (e.animated ≡ d.data_animated)
    × HasAlias d.name d.data_name e.alias
    × (e.url ≡ emote_id_to_url d.id "STV" 4)
Describes (bttv d) e =
    (e.provider ≡ "BTTV")
    × (e.id ≡ d.id)
    × (e.name ≡ d.code_original)
    × (e.animated ≡ d.animated)
    × HasAlias d.code d.code_original e.alias
    × (e.url ≡ emote_id_to_url d.id "BTTV" 4)
Describes (ffz d) e =
    (e.provider ≡ "FFZ")
    × (e.id ≡ itoa d.id)
    × (e.name ≡ d.name)
    × (e.animated ≡ d.animated)
    × (e.alias ≡ none)
    × (e.url ≡ emote_id_to_url (itoa d.id) "FFZ" 4)
Describes (twitch d) e =
    (e.provider ≡ "TWITCH")
    × (e.id ≡ d.id)
    × (e.name ≡ d.name)
    × (e.animated ≡ member "animated" d.format)
    × (e.alias ≡ none)
    × (e.url ≡ some d.url_4x)
Describes other e = ⊥

fill-Describes :
    (d : EmoteData) (e₀ e : NormalEmote)
    → e₀.alias ≡ none
    → fill d e₀ ≡ built e
    → Describes d e
      × (e.set_id ≡ e₀.set_id)
      × (e.provider ≡ e₀.provider)
      × (e.kind ≡ e₀.kind)
      × (e.platform ≡ e₀.platform)
unfolding fill fill_stv fill_bttv fill_ffz fill_twitch
fill-Describes (normal x) e₀ e h k = ground arith
fill-Describes (stv d) e₀ e h k =
    ground (arith, eq_iff e₀.provider "STV", eq_iff d.name d.data_name)
fill-Describes (bttv d) e₀ e h k =
    ground (arith, eq_iff e₀.provider "BTTV", eq_iff d.code d.code_original)
fill-Describes (ffz d) e₀ e h k = ground (arith, eq_iff e₀.provider "FFZ")
fill-Describes (twitch d) e₀ e h k = ground (arith, eq_iff e₀.provider "TWITCH")
fill-Describes other e₀ e h k = ground arith

check_names-eq-built :
    (e e' : NormalEmote) → check_names e ≡ built e' → (e ≡ e') × (e.id ≢ "") × (e.name ≢ "")
unfolding check_names
check_names-eq-built e e' h = ground (arith, eq_iff e.id "", eq_iff e.name "")

resolve_set-eq-built :
    (d : EmoteData) (set set' : String) (e₀ e : NormalEmote)
    → resolve_set d set ≡ built set'
    → Describes d e
    → (set ≢ "") × (set' ≡ set)
unfolding resolve_set
resolve_set-eq-built (normal x) set set' e₀ e h k = absurd k
resolve_set-eq-built d set set' e₀ e h k = ground (arith, eq_iff set "")

>>=-eq-built :
    {A B : Type 0} (m : Attempt A) (f : A → Attempt B) {b : B}
    → (m >>= f) ≡ built b
    → (a : A) × (m ≡ built a) × (f a ≡ built b)
>>=-eq-built (built a) f h = (a, refl, h)
>>=-eq-built (refused e) f h = cc

-- When the call succeeds, a set id was given, the emote belongs to that set, provider, kind and
-- platform, its id and name are not empty, and every other field is the provider's: in particular
-- the alias is the shown name exactly where that differs from the original one.
pub new_normal_emote-Describes :
    (d : EmoteData) (set provider kind : String) (animated : Bool) (platform : String)
    (e : NormalEmote)
    → new_normal_emote d set provider kind animated platform ≡ built e
    → (set ≢ "")
      × (e.set_id ≡ set)
      × (e.provider ≡ provider)
      × (e.kind ≡ kind)
      × (e.platform ≡ platform)
      × (e.id ≢ "")
      × (e.name ≢ "")
      × Describes d e
unfolding new_normal_emote
new_normal_emote-Describes d set provider kind animated platform e h =
    let (set', resolved, h₁) = >>=-eq-built (resolve_set d set) _ h in
    let (e₁, filled, h₂) = >>=-eq-built (fill d _) _ h₁ in
    let (same, id, name) = check_names-eq-built e₁ e h₂ in
    let (what, in_set, by, sort, place) = fill-Describes d _ e₁ refl filled in
    let (given, kept) = resolve_set-eq-built d set set' e₁ e₁ resolved what in
    rw (← same) (given, in_set ∙ kept, by, sort, place, id, name, what)

-- The pairs of a provider and the data that it wants, with the id and the name that come out.
abbrev pub Fits : String → EmoteData → Type 0
Fits provider (normal _) = ⊥
Fits provider (stv d) = (provider ≡ "STV") × (d.id ≢ "") × (d.data_name ≢ "")
Fits provider (bttv d) = (provider ≡ "BTTV") × (d.id ≢ "") × (d.code_original ≢ "")
Fits provider (ffz d) = (provider ≡ "FFZ") × (itoa d.id ≢ "") × (d.name ≢ "")
Fits provider (twitch d) = (provider ≡ "TWITCH") × (d.id ≢ "") × (d.name ≢ "")
Fits provider other = ⊥

Attempt-cases :
    {A : Type 0} (r : Attempt A) → (((a : A) × (r ≡ built a)) ⊎ ((e : Error) × (r ≡ refused e)))
Attempt-cases (built a) = inl (a, refl)
Attempt-cases (refused e) = inr (e, refl)

known_url-stv : (id : String) → emote_id_to_url id "STV" 4 ≢ none
unfolding emote_id_to_url lower_is
known_url-stv id = cc

known_url-bttv : (id : String) → emote_id_to_url id "BTTV" 4 ≢ none
unfolding emote_id_to_url lower_is
known_url-bttv id = cc

known_url-ffz : (id : String) → emote_id_to_url id "FFZ" 4 ≢ none
unfolding emote_id_to_url lower_is
known_url-ffz id = cc

new_normal_emote-ne-refused :
    (d : EmoteData) (set provider kind : String) (animated : Bool) (platform : String) (e : Error)
    → set ≢ ""
    → Fits provider d
    → new_normal_emote d set provider kind animated platform ≢ refused e
unfolding new_normal_emote resolve_set fill fill_stv fill_bttv fill_ffz fill_twitch check_names
new_normal_emote-ne-refused (normal x) set provider kind animated platform e given fits h =
    absurd fits
new_normal_emote-ne-refused (stv d) set provider kind animated platform e given (p, id, name) h =
    ground (
      arith,
      eq_iff set "",
      eq_iff d.id "",
      eq_iff d.data_name "",
      known_url-stv d.id,
      eq_iff provider "STV",
    )
new_normal_emote-ne-refused (bttv d) set provider kind animated platform e given (p, id, name) h =
    ground (
      arith,
      eq_iff set "",
      eq_iff d.id "",
      eq_iff d.code_original "",
      known_url-bttv d.id,
      eq_iff provider "STV",
      eq_iff provider "BTTV",
      eq_iff "BTTV" "STV",
    )
new_normal_emote-ne-refused (ffz d) set provider kind animated platform e given (p, id, name) h =
    ground (
      arith,
      eq_iff set "",
      eq_iff (itoa d.id) "",
      eq_iff d.name "",
      known_url-ffz (itoa d.id),
      eq_iff provider "STV",
      eq_iff provider "BTTV",
      eq_iff provider "FFZ",
      eq_iff "FFZ" "STV",
      eq_iff "FFZ" "BTTV",
    )
new_normal_emote-ne-refused (twitch d) set provider kind animated platform e given (p, id, name) h =
    ground (
      arith,
      eq_iff set "",
      eq_iff d.id "",
      eq_iff d.name "",
      eq_iff provider "STV",
      eq_iff provider "BTTV",
      eq_iff provider "FFZ",
      eq_iff provider "TWITCH",
      eq_iff "TWITCH" "STV",
      eq_iff "TWITCH" "BTTV",
      eq_iff "TWITCH" "FFZ",
    )
new_normal_emote-ne-refused other set provider kind animated platform e given fits h = absurd fits

-- The call succeeds for each of the four providers on its own data, given a set id and an id and
-- a name that are not empty.
pub new_normal_emote-total :
    (d : EmoteData) (set provider kind : String) (animated : Bool) (platform : String)
    → set ≢ ""
    → Fits provider d
    → (e : NormalEmote) × (new_normal_emote d set provider kind animated platform ≡ built e)
new_normal_emote-total d set provider kind animated platform given fits =
    elim (Attempt-cases (new_normal_emote d set provider kind animated platform)) [
      | inl found ↦ found
      | inr (e, failed) ↦
          absurd
            (new_normal_emote-ne-refused d set provider kind animated platform e given fits failed)
    ]
