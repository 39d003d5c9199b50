-- ===== src/Uploader/Service/Invariant.antt =====
-- What any run of the service keeps of a file that is stored, if nobody asks for its deletion with
-- its hash (uploader/uploader.go).
use Prim.Native.String.{◌++◌ as append}
use mathlib.Core.Path.{subst}
use potat_api.Base.{
  ◌≡◌, ◌≢◌, refl, sym, ap, ◌∙◌, inl, inr, String, some, some_inj, Bool-cases, str_eq, eq_iff,
  All-split,
}
use potat_api.Http.{new_writer}
use potat_api.Services.{Cache}
use potat_api.Uploader.{Files, FileRow}
use potat_api.Uploader.Handle.{set_redis, handle_delete}
use potat_api.Uploader.Delete.{handle_delete-Deletes}
use potat_api.Uploader.Service.{
  Service, Step, Run, stop, next, upload, get, delete, fill, expire, foreign,
}
use potat_api.Uploader.Service.Keeps.{IsDue, IsKept, handle_get-IsKept, handle_upload-IsKept}

module _ (c : Cache) (f : Files) (hasher detect : String → String) (k : String) (r : FileRow) where
  set_redis-cached :
      (key text v : String) (cache : c.State)
      → (k ≡ key → text ≡ r.file)
      → ((u : String) → c.contents k cache ≡ some u → u ≡ r.file)
      → c.contents k (set_redis f hasher detect c key text cache) ≡ some v
      → v ≡ r.file
  unfolding set_redis
  set_redis-cached key text v cache due cached held = elim (Bool-cases (str_eq key k)) [
    | inr apart ↦
        cached v
          (sym (c.set_ex-other key k text 1800 cache (λ e. cc (apart, (eq_iff key k).1 e))) ∙ held)
    | inl same ↦
        let e : k ≡ key = sym ((eq_iff key k).0 same) in
        elim (c.set_ex-stores key text 1800 cache) [
          | inl new ↦ let stored : text ≡ v = cc in sym stored ∙ due e
          | inr old ↦ let there : c.contents k cache ≡ some v = cc in cached v there
        ]
  ]

  del-cached :
      (key v : String) (cache : c.State)
      → ((u : String) → c.contents k cache ≡ some u → u ≡ r.file)
      → c.contents k (c.del key cache) ≡ some v
      → v ≡ r.file
  del-cached key v cache cached held = elim (Bool-cases (str_eq key k)) [
    | inr apart ↦
        cached v (sym (c.del-other key k cache (λ e. cc (apart, (eq_iff key k).1 e))) ∙ held)
    | inl same ↦
        let e : key ≡ k = (eq_iff key k).0 same in
        elim (c.del-removes key cache) [
          | inl gone ↦ cc
          | inr old ↦ let there : c.contents k cache ≡ some v = cc in cached v there
        ]
  ]

  -- A request to delete that does not have the hash of the row leaves it.
  handle_delete-here :
      (key hash : String) (cache : c.State) (s : f.State)
      → f.row k s ≡ some r
      → (k ≡ key → hash ≢ hasher (append k r.created_at))
      → f.row k (handle_delete f hasher detect c key hash cache s new_writer).0.1 ≡ some r
  handle_delete-here key hash cache s here guarded =
      let ((own, others), _) =
        handle_delete-Deletes f hasher detect c key hash cache s new_writer refl in
      elim (Bool-cases (str_eq key k)) [
        | inr apart ↦ others k (λ e. cc (apart, (eq_iff key k).1 e)) ∙ here
        | inl same ↦
            let e : key ≡ k = (eq_iff key k).0 same in
            elim own [
              | inl ((r', there, right), _, _) ↦
                  let both : r' ≡ r = some_inj (sym there ∙ ap (λ j. f.row j s) e ∙ here) in
                  absurd (guarded (sym e) (cc))
              | inr (_, left) ↦ cc
            ]
      ]

  module _ (Asked : String → String → Type 0) (Foreign : String → Type 0)
      (alone : Foreign k → ⊥) where
    Step-IsKept :
        (s t : Service c f)
        → ((hash : String) → Asked k hash → hash ≢ hasher (append k r.created_at))
        → Step c f hasher detect Asked Foreign s t
        → IsKept c f hasher detect k r s
        → IsKept c f hasher detect k r t
    unfolding handle_delete
    Step-IsKept s _ guarded (upload form drawn) kept =
        handle_upload-IsKept c f hasher detect k r s form drawn kept
    Step-IsKept s _ guarded (get key) kept = handle_get-IsKept c f hasher detect k r s key kept
    Step-IsKept s _ guarded (delete key hash asked) kept = record {
      here = handle_delete-here key hash s.cache s.rows kept.here (λ e. guarded hash (rw e asked));
      cached = λ v held. del-cached key v s.cache kept.cached held;
      due = kept.due;
    }
    Step-IsKept s _ guarded (fill e before after waits) kept =
        let (this, rest) =
          All-split (IsDue c f hasher detect k r) before e after (rw waits at kept.due) in
        record {
          here = kept.here;
          cached = λ v held. set_redis-cached e.0 e.1 v s.cache this kept.cached held;
          due = rest;
        }
    Step-IsKept s _ guarded (expire cache drops) kept = record {
      here = kept.here;
      cached = λ v held. kept.cached v (drops k v held);
      due = kept.due;
    }
    Step-IsKept s _ guarded (foreign j cache theirs others) kept = record {
      here = kept.here;
      cached =
          λ v held. kept.cached v (sym (others k (λ e. alone (subst Foreign e theirs))) ∙ held);
      due = kept.due;
    }

    pub Run-IsKept :
        (s t : Service c f)
        → ((hash : String) → Asked k hash → hash ≢ hasher (append k r.created_at))
        → Run c f hasher detect Asked Foreign s t
        → IsKept c f hasher detect k r s
        → IsKept c f hasher detect k r t
    Run-IsKept s _ guarded stop kept = kept
    Run-IsKept s u guarded (next {t = t} step rest) kept =
        Run-IsKept t u guarded rest (Step-IsKept s t guarded step kept)
