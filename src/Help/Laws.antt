-- ===== src/Help/Laws.antt =====
-- Which commands the help route shows.
use mathlib.Core.List.{append-nil, append_assoc}
use potat_api.Base.{
  ◌≡◌, refl, sym, ◌∙◌, inl, inr, String, not, Option, none, some, List, [], ◌∷◌, ◌++◌, value,
  filter, Bool-cases,
}
use potat_api.Http.{Writer, json, set_header}
use potat_api.Services.{Cache}
use potat_api.Api.{generic_response}
use potat_api.Help.{
  Command, HelpResponse, Outcome, is_unlisted, filter_from, filter_commands, list_commands,
  read_cache, ask_bot, answer_help, get_cache, set_cache, get_commands_handler,
}

-- The commands that are not unlisted, in order.
abbrev pub listed : List Command → List Command
listed cs = filter (λ c. not (is_unlisted c)) cs

filter_from-eq-append : (kept cs : List Command) → filter_from kept cs ≡ kept ++ listed cs
unfolding filter_from
filter_from-eq-append kept [] = sym (append-nil kept)
filter_from-eq-append kept (c ∷ cs) = elim (Bool-cases (is_unlisted c)) [
  | inl hidden ↦ rw hidden (filter_from-eq-append kept cs)
  | inr shown ↦
      rw shown (filter_from-eq-append (kept ++ c ∷ []) cs ∙ append_assoc kept (c ∷ []) (listed cs))
]

filter_commands-eq-listed : (cs : List Command) → filter_commands cs ≡ listed cs
unfolding filter_commands
filter_commands-eq-listed cs = filter_from-eq-append [] cs

-- The answer has the status 200 and these commands.
abbrev pub Shows : List Command → Writer HelpResponse → Outcome → Type 0
Shows cs w o =
    (o.writer.status ≡ some 200)
    × (o.writer.chunks ≡ w.chunks ++ json (record { commands = cs; error = none }) ∷ [])

module _ (decode : String → Option (List Command)) (c : Cache) where
  list_commands-Shows :
      (data' : String) (o : Option (List Command)) (cs : List Command) (took : String)
      (w : Writer HelpResponse)
      → w.status ≡ none
      → o ≡ some cs
      → Shows (listed cs) w (list_commands data' o took w)
  unfolding list_commands
  list_commands-Shows data' none cs took w blank h = cc
  list_commands-Shows data' (some cs') cs took w blank h =
      let same : cs' ≡ cs = cc in
      rw (same, filter_commands-eq-listed cs)
        (unfold generic_response in rw blank refl, unfold generic_response in refl)

  -- On a miss the route shows what the bot answered without the commands of the category
  -- "unlisted", in the bot's order.
  pub get_commands_handler-lists :
      (s : c.State) (data' : String) (cs : List Command) (took : String) (w : Writer HelpResponse)
      → w.status ≡ none
      → get_cache decode c s ≡ none
      → decode data' ≡ some cs
      → Shows (listed cs) w (get_commands_handler decode c s (some data') took w)
  unfolding get_commands_handler answer_help ask_bot
  get_commands_handler-lists s data' cs took w blank miss decoded =
      rw miss
        (unfold set_header in list_commands-Shows data' (decode data') cs took _ blank decoded)

  -- While the entry that such a miss leaves is in the cache, the route shows every command that the
  -- bot answered, unlisted ones too: what is cached is the bot's text, and a hit is not filtered.
  pub get_commands_handler-unfiltered :
      (s : c.State) (data' : String) (cs : List Command) (reply : Option String) (took : String)
      (w : Writer HelpResponse)
      → w.status ≡ none
      → decode data' ≡ some cs
      → c.get "website:commands" (set_cache decode c data' s) ≡ value data'
      → Shows cs w (get_commands_handler decode c (set_cache decode c data' s) reply took w)
  unfolding get_commands_handler get_cache read_cache answer_help
  get_commands_handler-unfiltered s data' cs reply took w blank decoded stored =
      rw (stored, decoded)
        (
          unfold generic_response set_header in rw blank refl,
          unfold generic_response set_header in refl,
        )
