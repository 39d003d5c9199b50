-- ===== src/Redirects/Memory.antt =====
-- The table url_redirects in memory, and its laws.
use potat_api.Base.{
  ◌≡◌, ◌≢◌, ◌↔◌, String, Bool, true, false, Option, none, some, List, [], ◌∷◌, Reply, value, absent,
  str_eq, eq_iff, lookup, if◌then◌else◌, arith,
}
use potat_api.Redirects.{Table}

abbrev pub Rows : Type 0
Rows = List (String × String)

abbrev pub found_is : Option String → String → Bool
found_is none u = false
found_is (some v) u = str_eq v u

abbrev pub answer : Option String → Reply String
answer none = absent
answer (some v) = value v

abbrev pub is_some : Option String → Bool
is_some none = false
is_some (some v) = true

-- The first key among `part` whose row in `rows` has the URL.
unfoldable pub key_for : String → Rows → Rows → Reply String
key_for u [] rows = absent
key_for u ((k, v) ∷ part) rows =
    let rest = key_for u part rows in if found_is (lookup k rows) u then value k else rest

unfoldable pub insert : String → String → Rows → Bool × Rows
insert k u rows = if is_some (lookup k rows) then (false, rows) else (true, (k, u) ∷ rows)

pub key_for-value :
    (u k : String) (part rows : Rows) → key_for u part rows ≡ value k → lookup k rows ≡ some u
unfolding key_for
key_for-value u k [] rows h = cc
key_for-value u k ((j, v) ∷ part) rows h =
    ground (arith, key_for-value u k part rows, found_is_iff (lookup j rows) u)
  where
    found_is_iff : (o : Option String) (w : String) → (found_is o w ≡ true) ↔ (o ≡ some w)
    found_is_iff none w = ground arith
    found_is_iff (some x) w = ground (arith, eq_iff x w)

pub select_url-value :
    (k u : String) (rows : Rows) → answer (lookup k rows) ≡ value u → lookup k rows ≡ some u
select_url-value k u rows h = ground arith

pub select_url-absent :
    (k : String) (rows : Rows) → answer (lookup k rows) ≡ absent → lookup k rows ≡ none
select_url-absent k rows h = ground arith

pub select_exists-value :
    (k : String) (rows : Rows) (b : Bool)
    → value (is_some (lookup k rows)) ≡ value b
    → (b ≡ true) ↔ (lookup k rows ≢ none)
select_exists-value k rows b h = ground arith

pub insert-done :
    (k u : String) (rows : Rows)
    → (insert k u rows).0 ≡ true
    → (lookup k rows ≡ none) × (lookup k (insert k u rows).1 ≡ some u)
unfolding insert lookup
insert-done k u rows h = ground (arith, eq_iff k k)

pub insert-failed :
    (k j u : String) (rows : Rows)
    → (insert k u rows).0 ≡ false
    → lookup j (insert k u rows).1 ≡ lookup j rows
unfolding insert
insert-failed k j u rows h = ground arith

pub insert-other :
    (k j u : String) (rows : Rows) → k ≢ j → lookup j (insert k u rows).1 ≡ lookup j rows
unfolding insert lookup
insert-other k j u rows h = ground (arith, eq_iff k j)

abbrev pub memory_table : Table
memory_table = record {
  State = Rows;
  select_url = λ k rows. answer (lookup k rows);
  select_key = λ u rows. key_for u rows rows;
  select_exists = λ k rows. value (is_some (lookup k rows));
  insert_row = insert;
  row = lookup;
  select_url-value = select_url-value;
  select_url-absent = select_url-absent;
  select_key-value = λ u k rows h. key_for-value u k rows rows h;
  select_exists-value = select_exists-value;
  insert_row-done = insert-done;
  insert_row-failed = insert-failed;
  insert_row-other = insert-other;
}
