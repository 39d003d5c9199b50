-- ===== src/Account/Lookup.antt =====
-- GetUserByName and GetUserByInternalID of common/db/postgres.go, on the tables users and
-- user_connections as lists of rows. PostgreSQL that does not answer is none.
pub mod Laws
use potat_api.Base.{
  String, Bool, true, false, not, ◌&&◌, Option, none, some, List, [], ◌∷◌, filter, str_eq, Reply,
  value, absent, fault, if◌then◌else◌,
}
use potat_api.Base.Int.{ℤ, pos, eqb_ℤ}
use potat_api.Account.{User, UserConnection, UserSettings}

-- A row of users.
pub record UserRow : Type 0 where
  pub user_id : ℤ
  pub username : String
  pub display : String
  pub first_seen : String
  pub level : ℤ
  pub settings : UserSettings

pub record Tables : Type 0 where
  pub users : List UserRow
  pub user_connections : List UserConnection

-- `QueryRow` takes the first row of the result.
unfoldable pub pick : (UserRow → Bool) → List UserRow → Option UserRow
pick p [] = none
pick p (row ∷ rows) = let later = pick p rows in if p row then some row else later

-- The rows that the join puts beside a user.
unfoldable pub connections_of : Tables → ℤ → List UserConnection
connections_of t id = filter (λ uc. eqb_ℤ id uc.id) t.user_connections

abbrev pub is_empty : List UserConnection → Bool
is_empty [] = true
is_empty (uc ∷ ucs) = false

-- What json.Unmarshal makes of a null in an array of connections: the zero value.
abbrev pub blank : UserConnection
blank = record {
  platform = "";
  username = "";
  display = "";
  user_id = "";
  pfp = "";
  meta = "";
  id = pos 0;
}

-- `json_agg(uc)` after the LEFT JOIN, where a user without connections has one row of NULLs.
abbrev pub left_joined : List UserConnection → List UserConnection
left_joined [] = blank ∷ []
left_joined (uc ∷ ucs) = uc ∷ ucs

-- `Scan` into a User.
unfoldable pub scan_user : UserRow → List UserConnection → User
scan_user row ucs = record {
  first_seen = row.first_seen;
  username = row.username;
  display = row.display;
  settings = row.settings;
  connections = ucs;
  id = row.user_id;
  level = row.level;
}

abbrev pub reply_row : Option UserRow → (UserRow → User) → Reply User
reply_row none f = absent
reply_row (some row) f = value (f row)

unfoldable pub get_user_by_name : Option Tables → String → Reply User
unfolding pick connections_of scan_user
get_user_by_name none username = fault
get_user_by_name (some t) username =
    reply_row (pick (λ row. str_eq row.username username) t.users)
      (λ row. scan_user row (left_joined (connections_of t row.user_id)))

-- The inner JOIN has no row for a user without connections.
unfoldable pub get_user_by_internal_id : Option Tables → ℤ → Reply User
unfolding pick connections_of scan_user
get_user_by_internal_id none id = fault
get_user_by_internal_id (some t) id =
    reply_row
      (pick (λ row. eqb_ℤ row.user_id id && not (is_empty (connections_of t row.user_id))) t.users)
      (λ row. scan_user row (connections_of t row.user_id))
