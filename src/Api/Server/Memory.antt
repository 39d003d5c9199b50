-- ===== src/Api/Server/Memory.antt =====
-- A router of plain paths, which finds the first route that fits.
use mathlib.Core.Path.{subst}
use potat_api.Base.{
  ℕ, suc, ◌≡◌, ◌⊎◌, refl, inl, inr, String, Bool, true, false, ◌&&◌, some, List, [], ◌∷◌, All,
  get_elem?, str_eq, Bool-cases, if◌then◌else◌,
}
use potat_api.Http.{Request}
use potat_api.Api.Server.{Match, found_at, method_mismatch, no_match, Mux}

abbrev pub fits : String × String → Request → Bool
fits p req = str_eq p.0 req.method && str_eq p.1 req.uri

abbrev pub later : Match → Match
later (found_at i) = found_at (suc i)
later method_mismatch = method_mismatch
later no_match = no_match

abbrev pub first_fit : List (String × String) → Request → Match
first_fit [] req = no_match
first_fit (p ∷ ps) req =
    let rest = later (first_fit ps req) in if fits p req then found_at 0 else rest

found_at_inj : {i j : ℕ} → found_at i ≡ found_at j → i ≡ j
found_at_inj e = cc

later-eq-found_at :
    (m : Match) (i : ℕ) → later m ≡ found_at i → (j : ℕ) × (suc j ≡ i) × (m ≡ found_at j)
later-eq-found_at (found_at j) i e = (j, found_at_inj e, refl)
later-eq-found_at method_mismatch i e = absurd (cc)
later-eq-found_at no_match i e = absurd (cc)

later-missed :
    (m : Match)
    → (later m ≡ method_mismatch) ⊎ (later m ≡ no_match)
    → (m ≡ method_mismatch) ⊎ (m ≡ no_match)
later-missed (found_at j) (inl e) = absurd (cc)
later-missed (found_at j) (inr e) = absurd (cc)
later-missed method_mismatch h = inl refl
later-missed no_match h = inr refl

pub first_fit-fits :
    (table : List (String × String)) (req : Request) (i : ℕ)
    → first_fit table req ≡ found_at i
    → (p : String × String) × (get_elem? table i ≡ some p) × (fits p req ≡ true)
first_fit-fits [] req i e = absurd (cc)
first_fit-fits (p ∷ ps) req i e = elim (Bool-cases (fits p req)) [
  | inl here ↦
      let at_i : 0 ≡ i = found_at_inj (rw here at e) in
      subst
        (λ (k : ℕ). (q : String × String) × (get_elem? (p ∷ ps) k ≡ some q) × (fits q req ≡ true))
        at_i (p, refl, here)
  | inr other ↦
      let (j, at_i, found) = later-eq-found_at (first_fit ps req) i (rw other at e) in
      subst
        (λ (k : ℕ). (q : String × String) × (get_elem? (p ∷ ps) k ≡ some q) × (fits q req ≡ true))
        at_i (first_fit-fits ps req j found)
]

pub first_fit-misses :
    (table : List (String × String)) (req : Request)
    → (first_fit table req ≡ method_mismatch) ⊎ (first_fit table req ≡ no_match)
    → All (λ p. fits p req ≡ false) table
first_fit-misses [] req h = tt
first_fit-misses (p ∷ ps) req h = elim (Bool-cases (fits p req)) [
  | inl here ↦ absurd (elim h [ inl e ↦ absurd (cc (here, e)) | inr e ↦ absurd (cc (here, e)) ])
  | inr other ↦ (other, first_fit-misses ps req (later-missed (first_fit ps req) (rw other at h)))
]

abbrev pub mux : Mux
mux = record {
  fits = fits;
  match_route = first_fit;
  match_route-fits = first_fit-fits;
  match_route-misses = first_fit-misses;
}
