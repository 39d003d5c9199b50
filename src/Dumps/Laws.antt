-- ===== src/Dumps/Laws.antt =====
-- How many dumps there are after a back-up.
use mathlib.Core.List.{Perm}
use mathlib.Core.List.Perm
use potat_api.Base.{
  ℕ, ◌+◌, ◌-◌, ◌≤◌, ◌<◌, ◌≡◌, ◌⊎◌, inl, inr, refl, ap, String, Bool, true, Option, none, some, List,
  [], ◌∷◌, ◌++◌, length, take, drop, take-append-drop, length-drop, length-Perm, leb, Bool-cases,
  arith,
}
use potat_api.Dumps.{
  Disk, Sorter, Backup, skipped, sort_files, remove_all, delete_old_dumps, file_path, dump_all,
  backup_listed, backup_postgres,
}

module _ (disk : Disk) (sorter : Sorter) where
  open disk use {State, mkdir_all, glob, remove, dump, listing}

  -- Every removal succeeds.
  abbrev pub IsReliable : Type 0
  IsReliable = (f : String) (s : State) → (remove f s).0 ≡ true

  remove_all-Perm :
      (fs rest : List String) (s : State)
      → IsReliable
      → Perm (listing s) (fs ++ rest)
      → Perm (listing (remove_all disk sorter fs s)) rest
  unfolding remove_all
  remove_all-Perm [] rest s up h = h
  remove_all-Perm (f ∷ fs) rest s up h =
      remove_all-Perm fs rest (remove f s).1 up (disk.remove-done f s (fs ++ rest) (up f s) h)

  delete_old_dumps-length :
      (max_size : ℕ) (s : State)
      → IsReliable
      → ((length (listing s) ≤ max_size)
          × (listing (delete_old_dumps disk sorter (listing s) max_size s) ≡ listing s))
        ⊎ ((max_size < length (listing s))
            × (length (listing (delete_old_dumps disk sorter (listing s) max_size s))
                ≡ max_size - 1))
  unfolding delete_old_dumps
  delete_old_dumps-length max_size s up = elim (Bool-cases (leb (length (listing s)) max_size)) [
    | inl few ↦ inl (ground arith, rw few refl)
    | inr many ↦
        let sorted = sorter.sort (sort_files disk sorter s) (listing s) in
        let k = length (listing s) - max_size + 1 in
        let same = sorter.sort-Perm (sort_files disk sorter s) (listing s) in
        let split : Perm (listing s) (take k sorted ++ drop k sorted) =
          rw (take-append-drop k sorted) (Perm.symm same) in
        let left = remove_all-Perm (take k sorted) (drop k sorted) s up split in
        let over : max_size < length (listing s) = ground arith in
        inr (
          over,
          rw many (omega (arith, length-Perm left, length-drop k sorted, length-Perm same, over)),
        )
  ]

  dump-one : (f : String) (s : State) → length (listing (dump f s).1) ≤ length (listing s) + 1
  dump-one f s = elim (disk.dump-adds f s) [
    | inl same ↦ omega (arith, length-Perm same)
    | inr more ↦ omega (arith, length-Perm more)
  ]

  dump_all-one :
      (has_nats : Bool) (now : ℕ) (rows : Option (List (Option String)))
      (message : ℕ → String → Option String) (s : State)
      → length (listing (dump_all disk sorter has_nats now rows message s).1)
        ≤ length (listing s) + 1
  unfolding dump_all
  dump_all-one has_nats now rows message s =
      elim (Bool-cases (dump (file_path disk sorter now) s).0) [
        | inl ok ↦ rw ok (dump-one (file_path disk sorter now) s)
        | inr failed ↦ rw failed (dump-one (file_path disk sorter now) s)
      ]

  -- How many dumps there are after a back-up that began with `n` of them.
  abbrev pub IsBounded : ℕ → Backup × State → State → Type 0
  IsBounded max_size r s =
      ((r.0 ≡ skipped) × (listing r.1 ≡ listing s))
      ⊎ (((length (listing s) ≤ max_size) × (length (listing r.1) ≤ length (listing s) + 1))
          ⊎ ((max_size < length (listing s)) × (length (listing r.1) ≤ max_size)))

  backup_listed-IsBounded :
      (files : Option (List String)) (has_nats : Bool) (now : ℕ)
      (rows : Option (List (Option String))) (message : ℕ → String → Option String) (s : State)
      → IsReliable
      → glob s ≡ files
      → IsBounded 10 (backup_listed disk sorter files has_nats now rows message s) s
  unfolding backup_listed
  backup_listed-IsBounded none has_nats now rows message s up h = inl (refl, refl)
  backup_listed-IsBounded (some files) has_nats now rows message s up h =
      let t = delete_old_dumps disk sorter (listing s) 10 s in
      let one = dump_all-one has_nats now rows message t in
      rw (disk.glob-listing s files h) (elim (delete_old_dumps-length 10 s up) [
        | inl (few, same) ↦ inr (inl (few, omega (arith, one, ap length same)))
        | inr (many, cut) ↦ inr (inr (many, omega (arith, one, cut)))
      ])

  -- If every removal succeeds, a back-up keeps the number of dumps in bounds: either it stops before
  -- it deletes or dumps anything; or it began with at most ten and then there is at most one more,
  -- so at most eleven; or it began with more than ten and leaves at most ten.
  pub backup_postgres-IsBounded :
      (has_nats : Bool) (now : ℕ) (rows : Option (List (Option String)))
      (message : ℕ → String → Option String) (s : State)
      → IsReliable
      → IsBounded 10 (backup_postgres disk sorter has_nats now rows message s) s
  unfolding backup_postgres
  backup_postgres-IsBounded has_nats now rows message s up =
      let kept = disk.mkdir_all-listing s in
      elim (Bool-cases (mkdir_all s).0) [
        | inl ok ↦
            rw (ok, ← kept)
              (backup_listed-IsBounded (glob (mkdir_all s).1) has_nats now rows message
                (mkdir_all s).1 up refl)
        | inr failed ↦ rw failed (inl (refl, kept))
      ]
