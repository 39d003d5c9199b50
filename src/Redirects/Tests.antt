-- ===== src/Redirects/Tests.antt =====
-- The redirect service against a table and a cache in memory.
use potat_api.Base.{◌≡◌, refl, String, Option, some, List, [], ◌∷◌, lookup, strip_prefix}
use potat_api.Http.{new_writer, http_error}
use potat_api.Services.Memory.{no_entries, poke, Entries}
use potat_api.Redirects.Memory.{Rows, memory_table, key_for, insert}
use potat_api.Redirects.Clean.{has_prefix, clean}
use potat_api.Redirects.Create.{
  with_scheme, known_key, generate_unique_key, store_new, create_redirect,
}
use potat_api.Redirects.Create.Laws.{create_redirect-never_inserts}

-- The cases of redirects/redirects_test.go.
clean_tests :
    (clean "https://google.com" ≡ "https://google.com")
    × (clean "http://google.com" ≡ "https://google.com")
    × (clean "//google.com" ≡ "https://google.com")
    × (clean "google.com" ≡ "https://google.com")
unfolding clean has_prefix strip_prefix
clean_tests = (refl, refl, refl, refl)

abbrev rows : Rows
rows = ("abc", "http://google.com") ∷ []

abbrev cache : Entries
cache = poke no_entries "abc" (some (clean "http://google.com"))

-- The draw of the taken key ends the loop.
abbrev draws : List (Option String)
draws = some "0f0f0f" ∷ some "abc" ∷ some "123456" ∷ []

never_inserts_run :
    create_redirect memory_table {J = String} "p.gg" (some "new.example") draws rows new_writer
    ≡ some (http_error "Internal Server Error" 500 new_writer, rows)
unfolding create_redirect with_scheme strip_prefix known_key key_for lookup generate_unique_key
    store_new insert
never_inserts_run = refl

create_redirect-never_inserts_example :
    ((j : String) → lookup j rows ≡ lookup j rows)
    × (http_error "Internal Server Error" 500 new_writer
        ≡ http_error {J = String} "Internal Server Error" 500 new_writer)
unfolding known_key with_scheme strip_prefix key_for lookup
create_redirect-never_inserts_example =
    create_redirect-never_inserts memory_table "p.gg" "new.example" draws rows rows new_writer
      (http_error "Internal Server Error" 500 new_writer) refl never_inserts_run
