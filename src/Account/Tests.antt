-- ===== src/Account/Tests.antt =====
-- An account with two Twitch connections, and the lookups of users.
use potat_api.Base.{ℕ, value, absent, ◌≡◌, ◌⊎◌, refl, String, none, some, [], ◌∷◌, false}
use potat_api.Base.Int.{pos}
use potat_api.Http.{new_writer}
use potat_api.Account.{
  UserConnection, User, Decoder, AuthorizedUserResponse, get_authenticated_user,
}
use potat_api.Account.Laws.{Denied, Answered, get_authenticated_user-answers, last_of}
use potat_api.Http.{Writer}
use potat_api.Account.Lookup.{
  UserRow, Tables, blank as blank_connection, scan_user, get_user_by_name, get_user_by_internal_id,
}
use potat_api.Account.Lookup.Laws.{IsKeyed, Agrees, get_user_by_name-id}

abbrev con : String → String → UserConnection
con platform user_id = record {
  platform = platform;
  username = "ann";
  display = "Ann";
  user_id = user_id;
  pfp = "";
  meta = "";
  id = pos 1;
}

abbrev ann : User
ann = record {
  first_seen = "2024";
  username = "ann";
  display = "Ann";
  settings = record {
    language = "en";
    ignore_dropped = false;
    color_responses = false;
    no_reply = false;
    is_bot = false;
    is_selfbot = false;
  };
  connections = con "TWITCH" "1" ∷ con "STV" "9" ∷ con "TWITCH" "2" ∷ [];
  id = pos 1;
  level = pos 1;
}

abbrev dec : Decoder
dec = record {
  twitch_meta = λ s. record {
    color = "#fff";
    roles = record { is_staff = false; is_partner = false; is_affiliate = false };
  };
  stv_meta = λ s. record { paint_id = ""; roles = [] };
}

last_wins : (last_of "TWITCH" ann.connections (con "" "")).user_id ≡ "2"
unfolding last_of
last_wins = refl

abbrev blank : Writer AuthorizedUserResponse
blank = new_writer

get_authenticated_user-answers_example :
    ((some ann ≡ none)
      × Denied "Unauthorized" blank (get_authenticated_user dec none (some ann) "1ms" blank))
    ⊎ ((u : User) × (some ann ≡ some u)
        × Answered dec none u u.connections blank
            (get_authenticated_user dec none (some ann) "1ms" blank))
get_authenticated_user-answers_example =
    get_authenticated_user-answers dec none (some ann) "1ms" blank refl

abbrev row : ℕ → String → UserRow
row id name = record {
  user_id = pos id;
  username = name;
  display = name;
  first_seen = "2024";
  level = pos 1;
  settings = ann.settings;
}

-- `bob` has no connection.
abbrev tables : Tables
tables = record {
  users = row 1 "ann" ∷ row 2 "bob" ∷ [];
  user_connections = con "TWITCH" "1" ∷ con "STV" "9" ∷ [];
}

abbrev bob : User
bob = scan_user (row 2 "bob") (blank_connection ∷ [])

bob_found : get_user_by_name (some tables) "bob" ≡ value bob
unfolding get_user_by_name
bob_found = refl

keyed : IsKeyed tables.users
keyed = ((refl, tt), (tt, tt))

get_user_by_name-id_example : Agrees tables bob
get_user_by_name-id_example = get_user_by_name-id tables "bob" bob keyed bob_found

bob_absent : get_user_by_internal_id (some tables) (pos 2) ≡ absent
unfolding get_user_by_internal_id
bob_absent = refl

ann_found : (get_user_by_name (some tables) "ann") ≡ get_user_by_internal_id (some tables) (pos 1)
unfolding get_user_by_name get_user_by_internal_id
ann_found = refl
