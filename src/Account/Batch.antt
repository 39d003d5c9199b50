-- ===== src/Account/Batch.antt =====
-- BatchUserConections of common/db/postgres.go: the connections of many users by one query. The map
-- of lists is a function.
use potat_api.Base.{
  ◌≡◌, refl, Bool, Option, none, some, List, [], ◌∷◌, ◌++◌, filter, if◌then◌else◌, Bool-cases, inl,
  inr,
}
use mathlib.Core.List.{append_assoc, append-nil}
use potat_api.Base.Int.{ℤ, eqb_ℤ}
use potat_api.Account.{UserConnection}

-- `users[id] = append(users[id], connection)`
abbrev pub append_connection : UserConnection → (ℤ → List UserConnection) → ℤ → List UserConnection
append_connection con users i = if eqb_ℤ con.id i then users i ++ con ∷ [] else users i

-- The loop over the rows, each as it scans; the first error gives nil.
unfoldable pub collect_connections :
    List (Option UserConnection) → (ℤ → List UserConnection) → Option (ℤ → List UserConnection)
collect_connections [] users = some users
collect_connections (none ∷ rows) users = none
collect_connections (some con ∷ rows) users = collect_connections rows (append_connection con users)

-- `none` where the query fails.
unfoldable pub batch_user_conections :
    Option (List (Option UserConnection)) → Option (ℤ → List UserConnection)
unfolding collect_connections
batch_user_conections none = none
batch_user_conections (some rows) = collect_connections rows (λ i. [])

abbrev pub scanned : List UserConnection → List (Option UserConnection)
scanned [] = []
scanned (con ∷ cons) = some con ∷ scanned cons

abbrev pub is_of : ℤ → UserConnection → Bool
is_of i con = eqb_ℤ con.id i

collect_connections-filter :
    (i : ℤ) (cons : List UserConnection) (users : ℤ → List UserConnection)
    → (m : ℤ → List UserConnection) × (collect_connections (scanned cons) users ≡ some m)
      × (m i ≡ users i ++ filter (is_of i) cons)
unfolding collect_connections
collect_connections-filter i [] users = (users, refl, rw append-nil refl)
collect_connections-filter i (con ∷ cons) users =
    let (m, made, holds) = collect_connections-filter i cons (append_connection con users) in
    (
      m,
      made,
      elim (Bool-cases (eqb_ℤ con.id i)) [
        | inl same ↦
            rw same (rw (same, append_assoc (users i) (con ∷ []) (filter (is_of i) cons)) at holds)
        | inr other ↦ rw other (rw other at holds)
      ],
    )

-- If every row scans, each user gets the rows with this user's id, in their order.
pub batch_user_conections-filter :
    (i : ℤ) (cons : List UserConnection)
    → (m : ℤ → List UserConnection) × (batch_user_conections (some (scanned cons)) ≡ some m)
      × (m i ≡ filter (is_of i) cons)
unfolding batch_user_conections
batch_user_conections-filter i cons = collect_connections-filter i cons (λ j. [])
