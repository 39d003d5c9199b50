-- ===== src/Uploader/Memory.antt =====
-- The table file_store in memory, and its laws; every row is stored at the time "t0".
use potat_api.Base.{
  ◌≡◌, ◌≢◌, refl, String, true, false, Option, none, some, Reply, value, absent, fault, str_eq,
  eq_iff, if◌then◌else◌, arith,
}
use potat_api.Uploader.{Files, FileRow}

abbrev pub Rows : Type 0
Rows = String → Option FileRow

abbrev pub poke : String → Option FileRow → Rows → Rows
poke k r m j = if str_eq k j then r else m j

abbrev pub fresh : String → String → String → FileRow
fresh file name mime = record {
  file = file;
  mime_type = mime;
  file_name = some name;
  created_at = "t0";
}

abbrev pub insert_if : Option FileRow → String → FileRow → Rows → Reply String × Rows
insert_if none k r m = (value "t0", poke k (some r) m)
insert_if (some old) k r m = (fault, m)

abbrev pub insert : String → String → String → String → Rows → Reply String × Rows
insert file name mime k m = insert_if (m k) k (fresh file name mime) m

abbrev pub answer_row : Option FileRow → Reply FileRow
answer_row none = absent
answer_row (some r) = value r

abbrev pub answer_time : Option FileRow → Reply String
answer_time none = absent
answer_time (some r) = value r.created_at

pub poke_self : (k : String) (r : Option FileRow) (m : Rows) → poke k r m k ≡ r
poke_self k r m = ground (arith, eq_iff k k)

pub poke_other : (k j : String) (r : Option FileRow) (m : Rows) → k ≢ j → poke k r m j ≡ m j
poke_other k j r m h = ground (arith, eq_iff k j)

insert_if-done :
    (o : Option FileRow) (k t : String) (r : FileRow) (m : Rows)
    → (insert_if o k r m).0 ≡ value t
    → (o ≡ none) × ((insert_if o k r m).1 k ≡ some r) × (t ≡ "t0")
insert_if-done none k t r m h = (refl, poke_self k (some r) m, cc)
insert_if-done (some x) k t r m h = cc

insert_if-failed :
    (o : Option FileRow) (k j : String) (r : FileRow) (m : Rows)
    → ((t : String) → (insert_if o k r m).0 ≢ value t)
    → (insert_if o k r m).1 j ≡ m j
insert_if-failed none k j r m h = absurd (h "t0" refl)
insert_if-failed (some x) k j r m h = refl

insert_if-other :
    (o : Option FileRow) (k j : String) (r : FileRow) (m : Rows)
    → k ≢ j
    → (insert_if o k r m).1 j ≡ m j
insert_if-other none k j r m h = poke_other k j (some r) m h
insert_if-other (some x) k j r m h = refl

pub insert-done :
    (file name mime k t : String) (m : Rows)
    → (insert file name mime k m).0 ≡ value t
    → (m k ≡ none)
      × ((insert file name mime k m).1 k
          ≡ some (record { file = file; mime_type = mime; file_name = some name; created_at = t }))
insert-done file name mime k t m h =
    let (free, added, time) = insert_if-done (m k) k t (fresh file name mime) m h in
    (free, rw time added)

pub insert-failed :
    (file name mime k j : String) (m : Rows)
    → ((t : String) → (insert file name mime k m).0 ≢ value t)
    → (insert file name mime k m).1 j ≡ m j
insert-failed file name mime k j m h = insert_if-failed (m k) k j (fresh file name mime) m h

pub insert-other :
    (file name mime k j : String) (m : Rows) → k ≢ j → (insert file name mime k m).1 j ≡ m j
insert-other file name mime k j m h = insert_if-other (m k) k j (fresh file name mime) m h

pub row-value : (o : Option FileRow) (r : FileRow) → answer_row o ≡ value r → o ≡ some r
row-value none r h = cc
row-value (some x) r h = cc

pub row-absent : (o : Option FileRow) → answer_row o ≡ absent → o ≡ none
row-absent none h = refl
row-absent (some x) h = cc

pub time-value :
    (o : Option FileRow) (t : String)
    → answer_time o ≡ value t
    → (r : FileRow) × (o ≡ some r) × (r.created_at ≡ t)
time-value none t h = cc
time-value (some x) t h = (x, refl, cc)

pub time-absent : (o : Option FileRow) → answer_time o ≡ absent → o ≡ none
time-absent none h = refl
time-absent (some x) h = cc

pub never_failed : (k j : String) (m : Rows) → true ≡ false → poke k none m j ≡ m j
never_failed k j m h = cc

abbrev pub memory_files : Files
memory_files = record {
  State = Rows;
  insert_row = insert;
  select_file = λ k m. answer_row (m k);
  select_created_at = λ k m. answer_time (m k);
  delete_row = λ k m. (true, poke k none m);
  row = λ k m. m k;
  insert_row-done = insert-done;
  insert_row-failed = insert-failed;
  insert_row-other = insert-other;
  select_file-value = λ k r m h. row-value (m k) r h;
  select_file-absent = λ k m h. row-absent (m k) h;
  select_created_at-value = λ k t m h. time-value (m k) t h;
  select_created_at-absent = λ k m h. time-absent (m k) h;
  delete_row-done = λ k m h. poke_self k none m;
  delete_row-failed = never_failed;
  delete_row-other = λ k j m h. poke_other k j none m h;
}

abbrev pub no_rows : Rows
no_rows k = none
