-- ===== src/Services/Memory.antt =====
-- A cache in memory: a server that always answers and where nothing expires.
use potat_api.Base.{
  ◌≡◌, ◌≢◌, inl, String, true, Option, none, some, Reply, value, absent, str_eq, eq_iff,
  if◌then◌else◌, arith,
}
use potat_api.Services.{Cache}

abbrev pub Entries : Type 0
Entries = String → Option String

abbrev pub poke : Entries → String → Option String → Entries
poke m k v j = if str_eq k j then v else m j

abbrev pub answer : Option String → Reply String
answer none = absent
answer (some v) = value v

pub get-value : (k v : String) (m : Entries) → answer (m k) ≡ value v → m k ≡ some v
get-value k v m h = ground arith

pub get-absent : (k : String) (m : Entries) → answer (m k) ≡ absent → m k ≡ none
get-absent k m h = ground arith

pub poke_self : (k : String) (v : Option String) (m : Entries) → poke m k v k ≡ v
poke_self k v m = ground (arith, eq_iff k k)

pub poke_other : (k j : String) (v : Option String) (m : Entries) → k ≢ j → poke m k v j ≡ m j
poke_other k j v m h = ground (arith, eq_iff k j)

abbrev pub memory_cache : Cache
memory_cache = record {
  State = Entries;
  get = λ k m. answer (m k);
  set_ex = λ k v t m. (true, poke m k (some v));
  del = λ k m. poke m k none;
  contents = λ k m. m k;
  get-value = get-value;
  get-absent = get-absent;
  set_ex-stores = λ k v t m. inl (poke_self k (some v) m);
  set_ex-done = λ k v t m h. poke_self k (some v) m;
  set_ex-other = λ k j v t m h. poke_other k j (some v) m h;
  del-removes = λ k m. inl (poke_self k none m);
  del-other = λ k j m h. poke_other k j none m h;
}

abbrev pub no_entries : Entries
no_entries k = none
