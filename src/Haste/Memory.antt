-- ===== src/Haste/Memory.antt =====
-- The table haste in memory, and its laws.
use potat_api.Base.{
  ◌≡◌, ◌≢◌, refl, String, true, false, Option, none, some, Reply, value, absent, fault, str_eq,
  eq_iff, if◌then◌else◌, arith,
}
use potat_api.Haste.{Pastes}

abbrev pub Rows : Type 0
Rows = String → Option String

abbrev pub reply : Option String → Reply String
reply none = absent
reply (some v) = value v

abbrev pub keep_old : Option String → String → Option String
keep_old none v = some v
keep_old (some u) v = some u

abbrev pub add : String → String → Rows → Rows
add k v m j = if str_eq k j then keep_old (m k) v else m j

pub update-value : (k v : String) (m : Rows) → reply (m k) ≡ value v → m k ≡ some v
update-value k v m h = ground arith

pub update-absent : (k : String) (m : Rows) → reply (m k) ≡ absent → m k ≡ none
update-absent k m h = ground arith

pub insert-old : (k v u : String) (m : Rows) → m k ≡ some u → add k v m k ≡ some u
insert-old k v u m h = ground (arith, eq_iff k k)

pub insert-done : (k v : String) (m : Rows) → m k ≡ none → add k v m k ≡ some v
insert-done k v m h = ground (arith, eq_iff k k)

pub insert-failed : (k j v : String) (m : Rows) → true ≡ false → add k v m j ≡ m j
insert-failed k j v m h = cc

pub insert-other : (k j v : String) (m : Rows) → k ≢ j → add k v m j ≡ m j
insert-other k j v m h = ground (arith, eq_iff k j)

pub never_garbled : (k v : String) (m : Rows) → m k ≡ some v → true ≡ false → reply (m k) ≡ fault
never_garbled k v m h garbled = cc

abbrev pub memory_pastes : Pastes
memory_pastes = record {
  State = Rows;
  update = λ k m. (reply (m k), m);
  insert_row = λ k v w m. (true, add k v m);
  row = λ k m. m k;
  update-value = update-value;
  update-absent = update-absent;
  is_utf8 = λ v. true;
  update-garbled = never_garbled;
  update-row = λ k j m. refl;
  insert_row-old = λ k v w u m h. insert-old k v u m h;
  insert_row-done = λ k v w m d h. insert-done k v m h;
  insert_row-failed = λ k j v w m h. insert-failed k j v m h;
  insert_row-other = λ k j v w m h. insert-other k j v m h;
}
