-- ===== src/Haste/Tests.antt =====
-- The paste service against a table and a cache in memory; keys are stored as they are, and every
-- content type is text/plain.
use potat_api.Base.{
  ◌≡◌, ◌≢◌, ◌⊎◌, inl, inr, refl, String, true, false, Option, Option-cases, none, some, List, [],
  ◌∷◌, ◌++◌, eq_iff, str_eq, fault, arith,
}
use potat_api.Http.{Writer, new_writer, json}
use potat_api.Services.Memory.{memory_cache, no_entries}
use potat_api.Base.{strip_prefix}
use potat_api.Haste.Static.{Entry, IsUnder, load_static_files, static_file}
use potat_api.Haste.{Answer, document, created, get_haste, new_haste, Keeps}
use potat_api.Haste.Memory.{Rows, memory_pastes, add}
use potat_api.Haste.Get.{as_json, before_dot, handle_get, fetch, serve, get_redis, look_up}
use potat_api.Haste.Service.{Service, answered, get, next, stop}
use potat_api.Haste.Service.Durable.{handle_get-Run}
use potat_api.Haste.Get.Laws.{IsCoherent, Serves, handle_get-Serves}
use potat_api.Haste.Post.{
  Post, chosen, settle, is_allowed, send_key, choose_key, confirm, store, accept, handle_post,
}
use potat_api.Haste.Post.Laws.{IsFilled, Adds, Rejects}
use potat_api.Haste.Post.Stores.{handle_post-Ends, choose_key_ends}

abbrev as_is : String → String
as_is k = k

abbrev plain : String → Option String
plain t = some "text/plain"

abbrev rows : Rows
rows = add "0a1b2c" "old text" no_entries

abbrev post : Post
post = record {
  request = record {
    method = "POST";
    uri = "/documents";
    host = "h";
    remote_addr = "1.2.3.4:5";
    headers = [];
  };
  form_ok = true;
  body = some "new text";
}

-- The first key is taken, the second is not.
abbrev draws : List (Option String)
draws = some "0a1b2c" ∷ some "ffffff" ∷ []

abbrev rows' : Rows
rows' = add "ffffff" "new text" rows

abbrev sent : Writer Answer
sent = send_key "ffffff" new_writer

post_run : handle_post memory_pastes as_is plain post draws rows new_writer ≡ some (sent, rows')
unfolding handle_post is_allowed choose_key settle get_haste accept store confirm new_haste
post_run = refl

rows_filled : (k : String) → rows k ≢ some ""
rows_filled k h = ground (arith, eq_iff "0a1b2c" k, eq_iff "old text" "")

rows-IsFilled : IsFilled memory_pastes as_is rows
rows-IsFilled = rows_filled

empty-IsCoherent : (m : Rows) → IsCoherent memory_cache memory_pastes as_is "0a1b2c" no_entries m
empty-IsCoherent m v h = cc

before_dot_run : before_dot "abc.go" ≡ "abc"
unfolding before_dot
before_dot_run = refl

handle_get-Serves_example :
    Serves memory_cache memory_pastes as_is as_json "0a1b2c" rows new_writer
      (handle_get memory_cache memory_pastes as_is "0a1b2c" no_entries rows new_writer)
handle_get-Serves_example =
    handle_get-Serves memory_cache memory_pastes as_is "0a1b2c" no_entries rows new_writer
      (empty-IsCoherent rows) refl refl

handle_post-Ends_example :
    ((text : String) × (some "new text" ≡ some text)
      × (str_eq text "" ≡ false)
      × Adds memory_pastes as_is text rows new_writer (sent, rows'))
    ⊎ Rejects memory_pastes as_is rows (sent, rows')
handle_post-Ends_example =
    handle_post-Ends memory_pastes as_is plain post draws rows new_writer (sent, rows') refl
      rows-IsFilled post_run

up : (get_haste memory_pastes as_is "ffffff" rows').0 ≢ fault
unfolding get_haste
up h = cc

sent_status : sent.status ≡ some 200
unfolding send_key
sent_status = refl

sent_chunks : sent.chunks ≡ json (created "ffffff") ∷ []
unfolding send_key
sent_chunks = refl

never_down : (j : String) (m : Rows) → (memory_pastes.update j m).0 ≢ fault
never_down j m = elim (Option-cases (m j)) [ inl e ↦ rw e (λ h. cc) | inr (v, e) ↦ rw e (λ h. cc) ]

abbrev first_draw : Option String
first_draw = some "0a1b2c"

drawn : first_draw ≢ none
drawn h = cc

choose_key_ends_example :
    let r = choose_key memory_pastes as_is ((some "0a1b2c" ∷ []) ++ some "ffffff" ∷ []) rows in
    (j : String) × (r.0 ≡ chosen j) × (rows j ≡ none) × Keeps memory_pastes rows r.1
choose_key_ends_example =
    choose_key_ends memory_pastes as_is (some "0a1b2c" ∷ []) [] "ffffff" rows (drawn, tt) never_down
      rows-IsFilled refl

abbrev before_post : Service memory_cache memory_pastes
before_post = record { cache = no_entries; rows = rows; tasks = []; pending = [] }

abbrev after_post : Service memory_cache memory_pastes
after_post = record before_post { rows = rows' }

abbrev read_once : Service memory_cache memory_pastes
read_once =
    answered after_post
      (handle_get memory_cache memory_pastes as_is "0a1b2c" no_entries rows' new_writer)

-- The limiter counts under addresses.
abbrev Address : String → Type 0
Address k = k ≡ "1.2.3.4:5"

never_foreign : Address "ffffff" → ⊥
never_foreign e = ground (arith, eq_iff "ffffff" "1.2.3.4:5")

still_up : (get_haste memory_pastes as_is "ffffff" read_once.rows).0 ≢ fault
unfolding get_haste handle_get fetch serve get_redis look_up
still_up h = cc

handle_get-Run_example :
    ((handle_get memory_cache memory_pastes as_is "ffffff" read_once.cache read_once.rows
        new_writer).writer.status
      ≡ some 200)
    × ((handle_get memory_cache memory_pastes as_is "ffffff" read_once.cache read_once.rows
          new_writer).writer.chunks
        ≡ json (document "ffffff" "new text") ∷ [])
handle_get-Run_example =
    handle_get-Run memory_cache memory_pastes as_is plain Address before_post read_once post draws
      rows' sent "ffffff" "new text" rows-IsFilled post_run sent_status sent_chunks refl refl refl
      tt never_foreign (next (get "0a1b2c") stop) still_up

abbrev folder : List Entry
folder =
    record { path = "/app/haste/static"; is_dir = true }
    ∷ record { path = "/app/haste/static/index.html"; is_dir = false }
    ∷ record { path = "/app/haste/static/img"; is_dir = true }
    ∷ []

under : IsUnder "/app/haste/static" folder
unfolding strip_prefix
under = (("", refl), (("/index.html", refl), (("/img", refl), tt)))

loaded : load_static_files "/app/haste/static" (some folder) ≡ some ("/index.html" ∷ [])
unfolding load_static_files strip_prefix
loaded = refl

folder_hidden :
    (static_file ("/index.html" ∷ []) "/img" ≡ "/")
    × (static_file ("/index.html" ∷ []) "/index.html" ≡ "/index.html")
unfolding static_file
folder_hidden = (refl, refl)
