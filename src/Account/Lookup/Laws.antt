-- ===== src/Account/Lookup/Laws.antt =====
-- The two lookups of a user compared.
use mathlib.Core.Path.{subst}
use potat_api.Base.{
  ◌≡◌, refl, inl, inr, String, Bool, true, false, not, ◌&&◌, none, some, List, [], ◌∷◌, All, str_eq,
  value, absent, if◌then◌else◌, Bool-cases, Option-cases, some_inj, arith,
}
use potat_api.Base.Int.{ℤ, pos, negsuc, eqb_ℤ}
use potat_api.Account.{User, UserConnection}
use potat_api.Account.Lookup.{
  UserRow, Tables, pick, connections_of, is_empty, blank, left_joined, scan_user, reply_row,
  get_user_by_name, get_user_by_internal_id,
}

-- The primary key of users.
abbrev pub IsKeyed : List UserRow → Type 0
IsKeyed [] = Unit
IsKeyed (row ∷ rows) = All (λ other. eqb_ℤ row.user_id other.user_id ≡ false) rows × IsKeyed rows

eqb_ℤ_self : (i : ℤ) → eqb_ℤ i i ≡ true
eqb_ℤ_self (pos n) = ground arith
eqb_ℤ_self (negsuc n) = ground arith

eqb_ℤ_comm : (i j : ℤ) → eqb_ℤ i j ≡ eqb_ℤ j i
eqb_ℤ_comm (pos m) (pos n) = ground arith
eqb_ℤ_comm (pos m) (negsuc n) = refl
eqb_ℤ_comm (negsuc m) (pos n) = refl
eqb_ℤ_comm (negsuc m) (negsuc n) = ground arith

pick-All :
    (P : UserRow → Type 0) (p : UserRow → Bool) (rows : List UserRow) (row : UserRow)
    → All P rows
    → pick p rows ≡ some row
    → P row
unfolding pick
pick-All P p [] row h found = absurd (cc)
pick-All P p (x ∷ rows) row h found = elim (Bool-cases (p x)) [
  | inl here ↦ subst P (some_inj (rw here at found)) h.0
  | inr later ↦ pick-All P p rows row h.1 (rw later at found)
]

-- By the key, where `q` is a further condition.
abbrev has_key : ℤ → (UserRow → Bool) → UserRow → Bool
has_key id q row = eqb_ℤ row.user_id id && q row

pick-eq-none :
    (id : ℤ) (q : UserRow → Bool) (rows : List UserRow)
    → All (λ other. eqb_ℤ id other.user_id ≡ false) rows
    → pick (has_key id q) rows ≡ none
unfolding pick
pick-eq-none id q [] h = refl
pick-eq-none id q (x ∷ rows) h = rw (eqb_ℤ_comm x.user_id id, h.0) (pick-eq-none id q rows h.1)

pick-has_key :
    (p q : UserRow → Bool) (rows : List UserRow) (row : UserRow)
    → IsKeyed rows
    → pick p rows ≡ some row
    → pick (has_key row.user_id q) rows ≡ (if q row then some row else none)
unfolding pick
pick-has_key p q [] row keyed found = absurd (cc)
pick-has_key p q (x ∷ rows) row keyed found = elim (Bool-cases (p x)) [
  | inl here ↦
      subst
        (λ (r : UserRow). pick (has_key r.user_id q) (x ∷ rows) ≡ (if q r then some r else none))
        (some_inj (rw here at found))
        (rw (eqb_ℤ_self x.user_id, pick-eq-none x.user_id q rows keyed.0) (refl))
  | inr later ↦
      let there : pick p rows ≡ some row = rw later at found in
      rw (pick-All (λ other. eqb_ℤ x.user_id other.user_id ≡ false) p rows row keyed.0 there)
        (pick-has_key p q rows row keyed.1 there)
]

-- Whether a user has a connection.
abbrev pub has_connections : Tables → ℤ → Bool
has_connections t id = not (is_empty (connections_of t id))

-- What the lookup by id gives for a user that the lookup by name gave.
abbrev pub Agrees : Tables → User → Type 0
Agrees t u =
    if has_connections t u.id
    then get_user_by_internal_id (some t) u.id ≡ value u
    else (get_user_by_internal_id (some t) u.id ≡ absent) × (u.connections ≡ blank ∷ [])

Agrees-row :
    (t : Tables) (row : UserRow)
    → pick (has_key row.user_id (λ r. has_connections t r.user_id)) t.users
      ≡ (if has_connections t row.user_id then some row else none)
    → Agrees t (scan_user row (left_joined (connections_of t row.user_id)))
unfolding get_user_by_internal_id scan_user
Agrees-row t row same = rw same (by_connections (connections_of t row.user_id) refl)
  where
    by_connections :
        (ucs : List UserConnection)
        → connections_of t row.user_id ≡ ucs
        → if not (is_empty ucs)
          then reply_row
              (if not (is_empty ucs) then some row else none)
              (λ r. scan_user r (connections_of t r.user_id))
            ≡ value (scan_user row (left_joined ucs))
          else (reply_row
                (if not (is_empty ucs) then some row else none)
                (λ r. scan_user r (connections_of t r.user_id))
              ≡ absent)
            × (left_joined ucs ≡ blank ∷ [])
    by_connections [] e = (refl, refl)
    by_connections (uc ∷ ucs) e = rw e refl

value_inj : {u v : User} → value u ≡ value v → u ≡ v
value_inj h = cc

-- If `user_id` is a key of users, a user that is found by name is found by its id too, as the same
-- user, exactly if it has a connection. A user without one is found by name only, and then with one
-- blank connection.
pub get_user_by_name-id :
    (t : Tables) (username : String) (u : User)
    → IsKeyed t.users
    → get_user_by_name (some t) username ≡ value u
    → Agrees t u
unfolding get_user_by_name
get_user_by_name-id t username u keyed found =
    elim (Option-cases (pick (λ row. str_eq row.username username) t.users)) [
      | inl nobody ↦ absurd (cc (nobody, found))
      | inr (row, there) ↦ subst (Agrees t) (value_inj (rw there at found)) (
          Agrees-row t row (
            pick-has_key (λ r. str_eq r.username username) (λ r. has_connections t r.user_id)
              t.users row keyed there))
    ]
