-- ===== src/Services.antt =====
-- The Redis server as the cache of the redirect, paste, upload and help services, with what Redis
-- documents of GET, SETEX and DEL. Entries expire between requests. It is the one server of the program:
-- what is stored under a key may also be another service's entry, or a limiter's number.
pub mod Memory
use potat_api.Base.{
  ℕ, ◌≡◌, ◌≢◌, ◌⊎◌, String, Bool, true, false, Option, none, some, Reply, value, absent, str_eq,
  if◌then◌else◌,
}

pub record Cache : Type 1 where
  pub State : Type 0
  pub get : String → State → Reply String
  pub set_ex : String → String → ℕ → State → Bool × State
  pub del : String → State → State
  -- What is stored under a key.
  pub contents : String → State → Option String
  -- An answer tells what is stored.
  pub get-value : (k v : String) (s : State) → get k s ≡ value v → contents k s ≡ some v
  pub get-absent : (k : String) (s : State) → get k s ≡ absent → contents k s ≡ none
  -- SETEX stores the value, or where it reports an error may have left the old one.
  pub set_ex-stores :
      (k v : String) (t : ℕ) (s : State)
      → (contents k (set_ex k v t s).1 ≡ some v) ⊎ (contents k (set_ex k v t s).1 ≡ contents k s)
  pub set_ex-done :
      (k v : String) (t : ℕ) (s : State)
      → (set_ex k v t s).0 ≡ true
      → contents k (set_ex k v t s).1 ≡ some v
  pub set_ex-other :
      (k j v : String) (t : ℕ) (s : State) → k ≢ j → contents j (set_ex k v t s).1 ≡ contents j s
  -- DEL removes the key, or fails and keeps it.
  pub del-removes :
      (k : String) (s : State)
      → (contents k (del k s) ≡ none) ⊎ (contents k (del k s) ≡ contents k s)
  pub del-other : (k j : String) (s : State) → k ≢ j → contents j (del k s) ≡ contents j s

-- The test that the handlers make of what they got: a text, and not the empty one.
abbrev pub non_empty : Option String → Option String
non_empty none = none
non_empty (some v) = if str_eq v "" then none else some v
