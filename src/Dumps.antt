-- ===== src/Dumps.antt =====
-- backupPostgres, deleteOldDumps, sortFiles and getDatabaseSize of common/db/loops.go. The file
-- system with its dumps is the record Disk; sort.Slice, the database's answer, the text of the
-- message and its JSON are parameters. Log calls, the measured time and the release of the process
-- are left out.
pub mod Laws
mod Tests
use mathlib.Core.List.{Perm}
use Prim.Native.String.{◌++◌ as append}
use potat_api.Base.{
  ℕ, suc, ◌+◌, ◌-◌, ◌≡◌, ◌⊎◌, String, Bool, true, false, Option, none, some, List, [], ◌∷◌, length,
  take, ltb, leb, if◌then◌else◌,
}
use potat_api.Base.Decimal.{decimal}

-- `listing` is what the pattern dump/*.sql.zst matches, with the order of Glob.
pub record Disk : Type 1 where
  pub State : Type 0
  pub mkdir_all : State → Bool × State
  pub glob : State → Option (List String)
  -- os.Stat: the time of the last change, and the size.
  pub mod_time : String → State → Option ℕ
  pub size : String → State → Option ℕ
  pub remove : String → State → Bool × State
  -- The shell command that dumps into a file.
  pub dump : String → State → Bool × State
  pub listing : State → List String
  pub mkdir_all-listing : (s : State) → listing (mkdir_all s).1 ≡ listing s
  pub glob-listing : (s : State) (files : List String) → glob s ≡ some files → files ≡ listing s
  -- os.Remove removes the named file, or reports an error and changes nothing.
  pub remove-done :
      (f : String) (s : State) (rest : List String)
      → (remove f s).0 ≡ true
      → Perm (listing s) (f ∷ rest)
      → Perm (listing (remove f s).1) rest
  pub remove-failed :
      (f : String) (s : State) → (remove f s).0 ≡ false → listing (remove f s).1 ≡ listing s
  -- The command writes this one file and no other, whether it ends well or not.
  pub dump-adds :
      (f : String) (s : State)
      → Perm (listing (dump f s).1) (listing s) ⊎ Perm (listing (dump f s).1) (f ∷ listing s)

-- sort.Slice gives the same elements in an order that depends on the test.
pub record Sorter : Type 0 where
  pub sort : (String → String → Bool) → List String → List String
  pub sort-Perm : (less : String → String → Bool) (fs : List String) → Perm (sort less fs) fs

-- `filepath.Join(dumpPath, name)`
abbrev pub join_dump : String → String
join_dump name = append "dump/" name

abbrev pub before : Option ℕ → Option ℕ → Bool
before none _ = false
before (some i) none = true
before (some i) (some j) = ltb i j

-- The rows of the query for the size: an error, or the rows, each as it scans.
unfoldable pub get_database_size : Option (List (Option String)) → Option String
get_database_size none = none
get_database_size (some []) = none
get_database_size (some (row ∷ rows)) = row

-- How a back-up ends: nothing is dumped; it is dumped and not announced; its message is ready; or
-- the nil client is called.
pub data Backup : Type 0 where
  skipped : Backup
  unannounced : Backup
  announced : String → Backup
  crashed : Backup

-- From Marshal on. NatsClient.Publish reads its receiver's field, and main passes nil where the
-- broker is not enabled; what Publish then does with the text is its own matter.
abbrev pub announce : Bool → Option String → Backup
announce has_nats none = unannounced
announce true (some text) = announced text
announce false (some text) = crashed

abbrev pub sized : Bool → (ℕ → String → Option String) → Option ℕ → Option String → Backup
sized has_nats message none db_size = unannounced
sized has_nats message (some size) none = unannounced
sized has_nats message (some size) (some db_size) = announce has_nats (message size db_size)

module _ (disk : Disk) (sorter : Sorter) where
  open disk use {State, mkdir_all, glob, mod_time, remove, dump}

  -- The comparison that sortFiles gives.
  unfoldable pub sort_files : State → String → String → Bool
  sort_files s i j = before (mod_time (join_dump i) s) (mod_time (join_dump j) s)

  -- The loop of deleteOldDumps; an error is only logged.
  unfoldable pub remove_all : List String → State → State
  remove_all [] s = s
  remove_all (f ∷ fs) s = remove_all fs (remove f s).1

  unfoldable pub delete_old_dumps : List String → ℕ → State → State
  unfolding sort_files remove_all
  delete_old_dumps files max_size s =
      if leb (length files) max_size
      then s
      else remove_all (take (length files - max_size + 1) (sorter.sort (sort_files s) files)) s

  unfoldable pub file_path : ℕ → String
  file_path now = append "dump/data_" (append (decimal now) ".sql.zst")

  -- After the old dumps are gone.
  unfoldable pub dump_all :
      Bool
      → ℕ
      → Option (List (Option String))
      → (ℕ → String → Option String)
      → State
      → Backup × State
  unfolding file_path get_database_size
  dump_all has_nats now rows message s =
      let (ok, s') = dump (file_path now) s in
      if ok
      then (sized has_nats message (disk.size (file_path now) s') (get_database_size rows), s')
      else (unannounced, s')

  unfoldable pub backup_listed :
      Option (List String)
      → Bool
      → ℕ
      → Option (List (Option String))
      → (ℕ → String → Option String)
      → State
      → Backup × State
  unfolding delete_old_dumps dump_all
  backup_listed none has_nats now rows message s = (skipped, s)
  backup_listed (some files) has_nats now rows message s =
      dump_all has_nats now rows message (delete_old_dumps files 10 s)

  -- `message size db_size` is the JSON of the message.
  unfoldable pub backup_postgres :
      Bool
      → ℕ
      → Option (List (Option String))
      → (ℕ → String → Option String)
      → State
      → Backup × State
  unfolding backup_listed
  backup_postgres has_nats now rows message s =
      let (ok, s') = mkdir_all s in
      if ok then backup_listed (glob s') has_nats now rows message s' else (skipped, s')
