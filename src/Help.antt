-- ===== src/Help.antt =====
-- api/routes/get/help.go. The decoder of the commands' JSON and the request to the bot are
-- parameters; of a command only its name and its category are kept.
pub mod Laws
mod Tests
use potat_api.Base.{
  ℕ, ◌≡◌, String, Bool, true, false, not, Option, none, some, List, [], ◌∷◌, ◌++◌, Reply, value,
  absent, fault, length, ltb, str_eq, if◌then◌else◌,
}
use potat_api.Http.{Writer, set_header}
use potat_api.Services.{Cache}
use potat_api.Api.{generic_response}

pub record Command : Type 0 where
  pub name : String
  pub category : String

-- `HelpResponse`
pub record HelpResponse : Type 0 where
  pub commands : List Command
  pub error : Option String

-- What a handler did: its writer, and what its goroutine will cache under "website:commands".
pub record Outcome : Type 0 where
  pub writer : Writer HelpResponse
  pub spawned : List String

abbrev pub is_unlisted : Command → Bool
is_unlisted c = str_eq c.category "unlisted"

-- The loop of filterCommands, with what it has kept so far.
unfoldable pub filter_from : List Command → List Command → List Command
filter_from kept [] = kept
filter_from kept (c ∷ cs) =
    let skipped = filter_from kept cs in
    let added = filter_from (kept ++ c ∷ []) cs in if is_unlisted c then skipped else added

unfoldable pub filter_commands : List Command → List Command
filter_commands cs = filter_from [] cs

abbrev pub fail : String → String → Writer HelpResponse → Outcome
fail message took w = record {
  writer = generic_response 500 (record { commands = []; error = some message }) took w;
  spawned = [];
}

-- getCommands after Unmarshal.
unfoldable pub list_commands :
    String → Option (List Command) → String → Writer HelpResponse → Outcome
list_commands data' none took w = fail "Error unmarshalling commands" took w
list_commands data' (some cs) took w = record {
  writer = generic_response 200 (record { commands = filter_commands cs; error = none }) took w;
  spawned = if ltb 0 (length (filter_commands cs)) then data' ∷ [] else [];
}

module _ (decode : String → Option (List Command)) where
  -- A value that does not decode is an error, as a missing key is.
  unfoldable pub read_cache : Reply String → Option (List Command)
  read_cache (value data') = decode data'
  read_cache absent = none
  read_cache fault = none

  -- After the request to the bot, `none` where that fails.
  unfoldable pub ask_bot : Option String → String → Writer HelpResponse → Outcome
  ask_bot none took w = fail "Error getting commands" took w
  ask_bot (some data') took w = list_commands data' (decode data') took w

  -- By what the cache has.
  unfoldable pub answer_help :
      Option (List Command) → Option String → String → Writer HelpResponse → Outcome
  answer_help (some cs) reply took w = record {
    writer =
        generic_response 200 (record { commands = cs; error = none }) took
          (set_header "X-Cache-Hit" "HIT" w);
    spawned = [];
  }
  answer_help none reply took w = ask_bot reply took (set_header "X-Cache-Hit" "MISS" w)

  module _ (c : Cache) where
    unfoldable pub get_cache : c.State → Option (List Command)
    get_cache s = read_cache (c.get "website:commands" s)

    -- setCache, for an hour; its error is logged only.
    unfoldable pub set_cache : String → c.State → c.State
    set_cache data' s = (c.set_ex "website:commands" data' 3600 s).1

    unfoldable pub get_commands_handler :
        c.State → Option String → String → Writer HelpResponse → Outcome
    get_commands_handler s reply took w = answer_help (get_cache s) reply took w
