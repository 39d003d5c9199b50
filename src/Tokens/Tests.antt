-- ===== src/Tokens/Tests.antt =====
-- The token sweeps against a table in memory.
use potat_api.Base.{
  ◌+◌, ◌≡◌, ◌≢◌, refl, String, true, false, Option, none, some, [], ◌∷◌, str_eq, eq_iff,
  if◌then◌else◌, arith,
}
use potat_api.Tokens.Helix.{
  Validation, Answer, Oauth, Credentials, validate_helix_token, refresh_helix_token,
}
use potat_api.Tokens.Sweep.{
  Connection, Store, Twitch, Tally, save_refresh, refresh_or_delete, count, validate_row,
  validate_tokens, refresh_all_helix_tokens,
}
use potat_api.Tokens.Sweep.Laws.{Keeps, scanned, refresh_all_helix_tokens-counts}

abbrev Rows : Type 0
Rows = String → Option (String × String)

abbrev poke : String → String × String → Rows → Rows
poke k v m j = if str_eq k j then some v else m j

done :
    (k : String) (o : Oauth) (m : Rows)
    → poke k (o.access_token, o.refresh_token) m k ≡ some (o.access_token, o.refresh_token)
done k o m = ground (arith, eq_iff k k)

failed_never : (k j : String) (v : String × String) (m : Rows) → true ≡ false → poke k v m j ≡ m j
failed_never k j v m h = cc

others : (k j : String) (v : String × String) (m : Rows) → k ≢ j → poke k v m j ≡ m j
others k j v m h = ground (arith, eq_iff k j)

abbrev memory : Store
memory = record {
  State = Rows;
  upsert = λ k o m. (true, poke k (o.access_token, o.refresh_token) m);
  row = λ k m. m k;
  upsert-done = λ k o m h. done k o m;
  upsert-failed = λ k j o m h. failed_never k j (o.access_token, o.refresh_token) m h;
  upsert-other = λ k j o m h. others k j (o.access_token, o.refresh_token) m h;
}

abbrev config : Credentials
config = record { client_id = "id"; client_secret = "secret" }

abbrev fresh : Oauth
fresh = record {
  access_token = "a2";
  refresh_token = "r2";
  token_type = "bearer";
  scope = [];
  expires_in = 9;
}

abbrev expired : Answer Validation
expired = record { status = 401; body = none }

abbrev renewed : Answer Oauth
renewed = record { status = 200; body = some fresh }

abbrev up : Twitch
up = record { validate = λ token. some expired; refresh = λ token. some renewed }

abbrev down : Twitch
down = record { validate = λ token. some expired; refresh = λ token. none }

abbrev con : Connection
con = record { platform_id = "42"; access_token = "a1"; refresh_token = "r1" }

abbrev rows : Rows
rows = poke "42" ("a1", "r1") (λ k. none)

abbrev start : Tally Rows
start = record { kept = 0; lost = 0; rows = rows }

abbrev after_one : Tally Rows
after_one = record { kept = 1; lost = 0; rows = poke "42" ("a2", "r2") rows }

refresh_run :
    refresh_all_helix_tokens memory config up (none ∷ some con ∷ []) start ≡ some after_one
unfolding refresh_all_helix_tokens count refresh_or_delete save_refresh refresh_helix_token
refresh_run = refl

validate_run : validate_tokens memory config up (none ∷ some con ∷ []) start ≡ some after_one
unfolding validate_tokens validate_row validate_helix_token count refresh_or_delete save_refresh
    refresh_helix_token
validate_run = refl

refresh_all_helix_tokens-counts_example :
    (1 + 0 ≡ 0 + 0 + scanned (none ∷ some con ∷ []))
    × Keeps memory rows (poke "42" ("a2", "r2") rows)
refresh_all_helix_tokens-counts_example =
    refresh_all_helix_tokens-counts memory config up (none ∷ some con ∷ []) start after_one
      refresh_run
