-- ===== src/Help/Tests.antt =====
-- The help route with a cache in memory; one text decodes to a listed and an unlisted command.
use potat_api.Base.{
  ◌≡◌, refl, String, Option, none, some, List, [], ◌∷◌, value, str_eq, if◌then◌else◌,
}
use potat_api.Services.Memory.{memory_cache, no_entries}
use potat_api.Help.{Command, filter_from, filter_commands, read_cache, get_cache, set_cache}

abbrev commands : List Command
commands =
    record { name = "ping"; category = "utilities" }
    ∷ record { name = "eval"; category = "unlisted" }
    ∷ []

abbrev decode : String → Option (List Command)
decode text = if str_eq text "json" then some commands else none

filter_run : filter_commands commands ≡ record { name = "ping"; category = "utilities" } ∷ []
unfolding filter_commands filter_from
filter_run = refl

miss : get_cache decode memory_cache no_entries ≡ none
unfolding get_cache read_cache
miss = refl

stored :
    memory_cache.get "website:commands" (set_cache decode memory_cache "json" no_entries)
    ≡ value "json"
unfolding set_cache
stored = refl
