-- ===== src/Dumps/Tests.antt =====
-- A directory in memory, whose files are as old as their place in the list.
use mathlib.Core.Logic.{ite}
use mathlib.Core.Path.{subst}
use mathlib.Core.List.{Perm, erase}
use mathlib.Core.List.Perm
use potat_api.Base.{
  ℕ, ◌≡◌, inl, inr, refl, String, true, false, Option, none, some, List, [], ◌∷◌, sym, Bool-cases,
  str_eq, eq_iff, arith, some_inj,
}
use potat_api.Dumps.{
  Disk, Sorter, crashed, backup_postgres, backup_listed, delete_old_dumps, dump_all,
  get_database_size,
}
use potat_api.Dumps.Laws.{IsReliable, IsBounded, backup_postgres-IsBounded}

text_dec : (x y : String) → Dec (x ≡ y)
text_dec x y = elim (Bool-cases (str_eq x y)) [
  | inl same ↦ yes ((eq_iff x y).0 same)
  | inr other ↦ no (λ e. ground (arith, eq_iff x y))
]

erase_head :
    (f : String) (rest : List String) (d : Dec (f ≡ f))
    → ite {C = List String} d rest (f ∷ erase text_dec rest f) ≡ rest
erase_head f rest (yes e) = refl
erase_head f rest (no ne) = absurd (ne refl)

erased :
    (f : String) (files rest : List String)
    → Perm files (f ∷ rest)
    → Perm (erase text_dec files f) rest
erased f files rest h =
    subst (λ r. Perm (erase text_dec files f) r) (erase_head f rest (text_dec f f))
      (Perm.erase text_dec f h)

never : (f : String) (files : List String) → true ≡ false → erase text_dec files f ≡ files
never f files h = cc

abbrev memory : Disk
memory = record {
  State = List String;
  mkdir_all = λ s. (true, s);
  glob = λ s. some s;
  mod_time = λ f s. none;
  size = λ f s. some 5;
  remove = λ f s. (true, erase text_dec s f);
  dump = λ f s. (true, f ∷ s);
  listing = λ s. s;
  mkdir_all-listing = λ s. refl;
  glob-listing = λ s files h. sym (some_inj h);
  remove-done = λ f s rest h p. erased f s rest p;
  remove-failed = λ f s h. never f s h;
  dump-adds = λ f s. inr (Perm.refl (f ∷ s));
}

abbrev keeper : Sorter
keeper = record { sort = λ less fs. fs; sort-Perm = λ less fs. Perm.refl fs }

abbrev two_dumps : List String
two_dumps = "dump/data_1.sql.zst" ∷ "dump/data_2.sql.zst" ∷ []

always : IsReliable memory keeper
always f s = refl

abbrev message : ℕ → String → Option String
message size db_size = some "done"

no_broker :
    (backup_postgres memory keeper false 3 (some (some "9 MB" ∷ [])) message two_dumps).0 ≡ crashed
unfolding backup_postgres backup_listed delete_old_dumps dump_all get_database_size
no_broker = refl

backup_postgres-IsBounded_example :
    IsBounded memory keeper 10
      (backup_postgres memory keeper false 3 (some (some "9 MB" ∷ [])) message two_dumps)
      two_dumps
backup_postgres-IsBounded_example =
    backup_postgres-IsBounded memory keeper false 3 (some (some "9 MB" ∷ [])) message two_dumps
      always
