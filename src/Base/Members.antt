-- ===== src/Base/Members.antt =====
-- Membership in a list as a sum, and what a filter keeps of it.
use Prim.Native.Nat.{ℕ, zero, suc}
use mathlib.Core.Path.{◌≡◌, refl, sym}
use mathlib.Core.Logic.{◌⊎◌, inl, inr}
use mathlib.Core.Bool.{Bool, true, not}
use mathlib.Core.Option.{some}
use mathlib.Core.List.{List, [], ◌∷◌, ◌++◌, map}
use potat_api.Base.Tests.{Bool-cases, some_inj}
use potat_api.Base.Lists.{All, filter, get_elem?}

module _ {A : Type 0} where
  abbrev pub IsIn : A → List A → Type 0
  IsIn a [] = ⊥
  IsIn a (x ∷ xs) = (a ≡ x) ⊎ IsIn a xs

  pub IsIn-get_elem? : (xs : List A) (i : ℕ) (a : A) → get_elem? xs i ≡ some a → IsIn a xs
  IsIn-get_elem? [] i a e = absurd (cc)
  IsIn-get_elem? (x ∷ xs) zero a e = inl (sym (some_inj e))
  IsIn-get_elem? (x ∷ xs) (suc i) a e = inr (IsIn-get_elem? xs i a e)

  pub IsIn-append : (a : A) (xs ys : List A) → IsIn a (xs ++ ys) → IsIn a xs ⊎ IsIn a ys
  IsIn-append a [] ys h = inr h
  IsIn-append a (x ∷ xs) ys (inl e) = inl (inl e)
  IsIn-append a (x ∷ xs) ys (inr h) = elim (IsIn-append a xs ys h) [
    | inl one ↦ inl (inr one)
    | inr two ↦ inr two
  ]

  pub All-append_inv : (P : A → Type 0) (xs ys : List A) → All P (xs ++ ys) → All P xs × All P ys
  All-append_inv P [] ys h = (tt, h)
  All-append_inv P (x ∷ xs) ys (px, h) = let (l, r) = All-append_inv P xs ys h in ((px, l), r)

  pub All-append : (P : A → Type 0) (xs ys : List A) → All P xs → All P ys → All P (xs ++ ys)
  All-append P [] ys h k = k
  All-append P (x ∷ xs) ys (now, h) k = (now, All-append P xs ys h k)

  pub All-split :
      (P : A → Type 0) (xs : List A) (x : A) (ys : List A)
      → All P (xs ++ x ∷ ys)
      → P x × All P (xs ++ ys)
  All-split P [] x ys (now, h) = (now, h)
  All-split P (z ∷ xs) x ys (now, h) =
      let (here, rest) = All-split P xs x ys h in (here, (now, rest))

  pub All-map : (P Q : A → Type 0) (xs : List A) → ((x : A) → P x → Q x) → All P xs → All Q xs
  All-map P Q [] f h = tt
  All-map P Q (x ∷ xs) f (now, h) = (f x now, All-map P Q xs f h)

  module _ (p : A → Bool) where
    pub IsIn-filter : (a : A) (xs : List A) → IsIn a (filter p xs) → IsIn a xs
    IsIn-filter a [] h = h
    IsIn-filter a (x ∷ xs) h = elim (Bool-cases (p x)) [
      | inl keep ↦ elim (rw keep at h) [ inl e ↦ inl e | inr later ↦ inr (IsIn-filter a xs later) ]
      | inr leave ↦ inr (IsIn-filter a xs (rw leave at h))
    ]

    pub IsIn-filter_holds : (a : A) (xs : List A) → IsIn a (filter p xs) → p a ≡ true
    IsIn-filter_holds a [] h = absurd h
    IsIn-filter_holds a (x ∷ xs) h = elim (Bool-cases (p x)) [
      | inl keep ↦ elim (rw keep at h) [
        | inl e ↦ rw e keep
        | inr later ↦ IsIn-filter_holds a xs later
      ]
      | inr leave ↦ IsIn-filter_holds a xs (rw leave at h)
    ]

    -- Each element is in one of the two halves.
    pub All-halves :
        (P : A → Type 0) (xs : List A)
        → All P (filter p xs)
        → All P (filter (λ x. not (p x)) xs)
        → All P xs
    All-halves P [] h k = tt
    All-halves P (x ∷ xs) h k = elim (Bool-cases (p x)) [
      | inl keep ↦
          let both : P x × All P (filter p xs) = rw keep at h in
          (both.0, All-halves P xs both.1 (rw keep at k))
      | inr leave ↦
          let both : P x × All P (filter (λ y. not (p y)) xs) = rw leave at k in
          (both.0, All-halves P xs (rw leave at h) both.1)
    ]

module _ {A B : Type 0} (f : A → B) where
  pub IsIn-map : (b : B) (xs : List A) → IsIn b (map f xs) → (a : A) × (b ≡ f a) × IsIn a xs
  IsIn-map b [] h = absurd h
  IsIn-map b (x ∷ xs) (inl e) = (x, e, inl refl)
  IsIn-map b (x ∷ xs) (inr h) = let (a, e, there) = IsIn-map b xs h in (a, e, inr there)

  pub All-map_inv : (P : B → Type 0) (xs : List A) → All P (map f xs) → All (λ a. P (f a)) xs
  All-map_inv P [] h = tt
  All-map_inv P (x ∷ xs) (px, h) = (px, All-map_inv P xs h)
