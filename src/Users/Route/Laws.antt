-- ===== src/Users/Route/Laws.antt =====
-- What the users route answers, and what strings.Split gives it.
use Prim.Native.String.{◌++◌ as append}
use Prim.Native.Char.{Char, code}
use text.Mathlib.TextLemmas.{nil-append, cons-append, append-nil, append_assoc}
use text.Mathlib.TextEquality.{Char-path}
use mathlib.Core.List.{Perm}
use mathlib.Core.List.Perm
use potat_api.Base.{
  ℕ, ◌+◌, ◌≡◌, ◌≢◌, ◌↔◌, ◌||◌, refl, sym, ap, ◌∙◌, ◌⊎◌, inl, inr, String, true, false, Option, none,
  some, List, [], ◌∷◌, ◌++◌, map, length, ltb, ◌==◌, ==_iff, str_eq, Bool-cases, eq_iff, codes,
  if◌then◌else◌, arith,
}
use potat_api.Http.{Writer, json}
use potat_api.Api.{generic_response}
use potat_api.Users.Load.{UserInfo}
use potat_api.Users.Route.{Response, cons_head, split, too_many, respond, respond_first, get_users}

-- The texts, with a comma between any two.
abbrev pub join : List String → String
join [] = ""
join (s ∷ []) = s
join (s ∷ t ∷ ts) = append s (append "," (join (t ∷ ts)))

abbrev pub commas : List ℕ → ℕ
commas [] = 0
commas (c ∷ cs) = if c == b',' then 1 + commas cs else commas cs

split-nonempty : (s : String) → (t : String) × (ts : List String) × (split s ≡ t ∷ ts)
unfolding split
split-nonempty String.[] = ("", [], refl)
split-nonempty (String.◌∷◌ c s) =
    let (t, ts, e) = split-nonempty s in
    elim (Bool-cases (code c == b',')) [
      | inl comma ↦ ("", split s, rw comma refl)
      | inr other ↦ (append (String.◌∷◌ c "") t, ts, rw (other, e) refl)
    ]

join-cons_head : (s : String) (ts : List String) → join (cons_head s ts) ≡ append s (join ts)
join-cons_head s [] = rw append-nil refl
join-cons_head s (t ∷ []) = refl
join-cons_head s (t ∷ u ∷ ts) = append_assoc s t (append "," (join (u ∷ ts)))

cons-eq-append : (c : Char) (s : String) → String.◌∷◌ c s ≡ append (String.◌∷◌ c String.[]) s
cons-eq-append c s = rw (cons-append, nil-append) refl

join-blank :
    (ts : List String) {t : String} {rest : List String}
    → ts ≡ t ∷ rest
    → join ("" ∷ ts) ≡ append "," (join ts)
join-blank [] h = cc
join-blank (t ∷ ts) h = rw nil-append refl

length-cons_head :
    (s : String) (ts : List String) {t : String} {rest : List String}
    → ts ≡ t ∷ rest
    → length (cons_head s ts) ≡ length ts
length-cons_head s [] h = cc
length-cons_head s (t ∷ ts) h = refl

-- Joining the pieces by commas gives the text back, and there is one more of them than commas.
pub join-split : (s : String) → (join (split s) ≡ s) × (length (split s) ≡ commas (codes s) + 1)
unfolding split
join-split String.[] = (refl, refl)
join-split (String.◌∷◌ c s) =
    let (t, ts, e) = split-nonempty s in
    let (same, count) = join-split s in
    elim (Bool-cases (code c == b',')) [
      | inl comma ↦
          let comma_char : Char = "," in
          let is_comma : c ≡ comma_char = Char-path c comma_char ((==_iff _ _).0 comma) in
          rw comma (
            join-blank (split s) e ∙ rw (same, is_comma) (sym (cons-eq-append comma_char s)),
            omega (arith, count),
          )
      | inr other ↦ rw other (
        join-cons_head (String.◌∷◌ c String.[]) (split s) ∙ rw same (sym (cons-eq-append c s)),
        length-cons_head (String.◌∷◌ c String.[]) (split s) e ∙ count,
      )
    ]

module _ {User Channel : Type 0} where
  -- The answer is JSON of these infos with this code; without an error only for 200.
  abbrev pub Sends :
      ℕ
      → List (UserInfo User Channel)
      → Writer (Response User Channel)
      → Writer (Response User Channel)
      → Type 0
  Sends code infos w w' =
      (w'.status ≡ some code)
      × (error : Option String) × (w'.chunks
          ≡ w.chunks ++ json (record { infos = infos; error = error }) ∷ [])
      × ((error ≡ none) ↔ (code ≡ 200))

  respond-Sends :
      (u : Option User) (infos : List (UserInfo User Channel)) (took : String)
      (w : Writer (Response User Channel))
      → w.status ≡ none
      → Sends 200 infos w (respond u infos took w) ⊎ Sends 404 infos w (respond u infos took w)
  unfolding respond
  respond-Sends none infos took w blank = inr (
    unfold generic_response in rw blank refl,
    some "User not found",
    unfold generic_response in refl,
    ground arith,
  )
  respond-Sends (some u) infos took w blank = inl (
    unfold generic_response in rw blank refl,
    none,
    unfold generic_response in refl,
    ground arith,
  )

  nothing-arrives :
      (names : List String) (load : String → UserInfo User Channel) {t : String} {ts : List String}
      → Perm [] (map load names)
      → names ≢ t ∷ ts
  nothing-arrives [] load all' h = cc
  nothing-arrives (n ∷ names) load all' h = cc (Perm.nil-eq all')

  arrived_answers :
      (arrived : List (UserInfo User Channel)) (took : String) (w : Writer (Response User Channel))
      → w.status ≡ none
      → arrived ≢ []
      → (w' : Writer (Response User Channel)) × (respond_first arrived took w ≡ some w')
        × (Sends 200 arrived w w' ⊎ Sends 404 arrived w w')
  unfolding respond_first
  arrived_answers [] took w blank some' = absurd (some' refl)
  arrived_answers (i ∷ infos) took w blank some' =
      (respond i.user (i ∷ infos) took w, refl, respond-Sends i.user (i ∷ infos) took w blank)

  -- The route always answers, and never reads past the end of what arrived, whatever the order in
  -- which the users are loaded: 400 without data exactly where no name or more than 25 are given;
  -- else 200 or 404, with the info of every user that was asked for, in the order of arrival.
  pub get_users-answers :
      (word : String) (load : String → UserInfo User Channel)
      (arrived : List (UserInfo User Channel)) (took : String) (w : Writer (Response User Channel))
      → w.status ≡ none
      → Perm arrived (map load (split word))
      → (w' : Writer (Response User Channel)) × (get_users word arrived took w ≡ some w')
        × (if str_eq word "" || ltb 25 (commas (codes word) + 1)
            then Sends 400 [] w w'
            else (Sends 200 arrived w w' ⊎ Sends 404 arrived w w'))
  unfolding get_users
  get_users-answers word load arrived took w blank all' =
      let count = (join-split word).1 in
      elim (Bool-cases (str_eq word "")) [
        | inl empty ↦ rw empty (
          _,
          refl,
          (
            unfold generic_response in rw blank refl,
            some "No username provided",
            unfold generic_response in refl,
            ground arith,
          ),
        )
        | inr named ↦ elim (Bool-cases (ltb 25 (length (split word)))) [
          | inl many ↦
              let many' : ltb 25 (commas (codes word) + 1) ≡ true = rw count at many in
              rw (named, many, many')
                (
                  _,
                  refl,
                  (
                    unfold generic_response in rw blank refl,
                    some (too_many (length (split word))),
                    unfold generic_response in refl,
                    ground arith,
                  ),
                )
          | inr few ↦
              let few' : ltb 25 (commas (codes word) + 1) ≡ false = rw count at few in
              rw (named, few, few')
                (arrived_answers arrived took w blank (λ gone.
                  let (t, ts, e) = split-nonempty word in
                  nothing-arrives (split word) load (rw gone at all') e))
        ]
      ]

  -- The status hangs on the order of arrival: with two names (and no more than 25), one of a user
  -- and one of nobody, the same request is answered 404 if nobody comes first and 200 if the user
  -- does.
  pub get_users-order :
      (word : String) (x y : UserInfo User Channel) (u : User) (took : String)
      (w : Writer (Response User Channel))
      → w.status ≡ none
      → commas (codes word) ≡ 1
      → x.user ≡ none
      → y.user ≡ some u
      → ((w' : Writer (Response User Channel)) × (get_users word (x ∷ y ∷ []) took w ≡ some w')
          × (w'.status ≡ some 404))
        × ((w' : Writer (Response User Channel)) × (get_users word (y ∷ x ∷ []) took w ≡ some w')
            × (w'.status ≡ some 200))
  unfolding get_users respond_first respond
  get_users-order word x y u took w blank two nobody user =
      let count = (join-split word).1 in
      let few : ltb 25 (length (split word)) ≡ false = rw (count, two) refl in
      let named : str_eq word "" ≡ false = elim (Bool-cases (str_eq word "")) [
        | inr other ↦ other
        | inl empty ↦
            let zero' : 0 ≡ 1 =
              sym (ap (λ (s : String). commas (codes s)) ((eq_iff word "").0 empty)) ∙ two in
            absurd (cc zero')
      ] in
      rw (named, few, nobody, user)
        (
          (_, refl, unfold generic_response in rw blank refl),
          (_, refl, unfold generic_response in rw blank refl),
        )
