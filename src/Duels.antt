-- ===== src/Duels.antt =====
-- decrementDuels of common/db/loops.go, and RedisClient.Scan of common/db/redis.go under it. The
-- Redis server is the record Server. Loops run on fuel, one unit for each SCAN or round; none means
-- that it is used up.
pub mod Laws
mod Tests
use potat_api.Base.{
  ℕ, zero, suc, ◌+◌, String, Bool, true, false, not, Option, none, some, List, [], ◌∷◌, ◌++◌,
  length, ◌==◌, if◌then◌else◌,
}
use potat_api.Base.Int.{ℤ, pos, negsuc}

pub record Server : Type 1 where
  pub State : Type 0
  -- SCAN from a cursor: the keys and the next cursor, or an error.
  pub scan : ℕ → String → ℕ → State → Option (List String × ℕ) × State
  -- DECR, where EVAL does not fail, and DEL.
  pub decr : String → State → ℤ × State
  pub del : String → State → State
  -- Whether the server accepts the script.
  pub accepts : State → Bool

-- How Scan ends: with keys, or an error.
pub data Scanned : Type 0 where
  found : List String → Scanned
  failed : Scanned

abbrev pub is_positive : ℤ → Bool
is_positive (pos zero) = false
is_positive (pos (suc n)) = true
is_positive (negsuc n) = false

module _ (server : Server) where
  open server use {State, decr, del, accepts}

  -- The loop of Scan; `matches` are the keys of the pages before.
  unfoldable pub scan : ℕ → String → ℕ → ℕ → List String → State → Option (Scanned × State)
  scan zero glob count zero matches s = some (found matches, s)
  scan zero glob count (suc c) matches s = none
  scan (suc fuel) glob count zero matches s = some (found matches, s)
  scan (suc fuel) glob count (suc c) matches s =
      let (page, s') = server.scan (suc c) glob count s in
      elim page [ none ↦ some (failed, s') | some p ↦ scan fuel glob count p.1 (matches ++ p.0) s' ]

  -- The Lua script.
  unfoldable pub decrement_keys : List String → State → State
  decrement_keys [] s = s
  decrement_keys (key ∷ keys) s =
      let (num, s') = decr key s in decrement_keys keys (if is_positive num then s' else del key s')

  unfoldable pub eval_script : List String → State → State
  unfolding decrement_keys
  eval_script keys s = if accepts s then decrement_keys keys s else s

  -- A round of decrementDuels after its Scan: false if it returns.
  unfoldable pub decrement_found : Scanned → State → Bool × State
  unfolding eval_script
  decrement_found failed s = (false, s)
  decrement_found (found []) s = (false, s)
  decrement_found (found (key ∷ keys)) s = (true, eval_script (key ∷ keys) s)

  -- The rounds of decrementDuels; `pages` is the fuel of each Scan.
  unfoldable pub decrement_duels : ℕ → ℕ → State → Option State
  decrement_duels zero pages s = none
  decrement_duels (suc rounds) pages s = elim (scan pages "duelUse:*" 100 0 [] s) [
    | none ↦ none
    | some r ↦
        let (again, s') = decrement_found r.0 r.1 in
        elim again [ true ↦ decrement_duels rounds pages s' | false ↦ some s' ]
  ]
