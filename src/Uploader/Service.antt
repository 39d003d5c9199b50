-- ===== src/Uploader/Service.antt =====
-- The upload service over time (uploader/uploader.go): requests, the goroutines that fill the cache,
-- the expiry of cached entries, and what the limiters and the other services write to the same Redis,
-- in any order.
mod Keeps
mod Invariant
pub mod Kept
mod Tests
use potat_api.Base.{◌≡◌, ◌≢◌, String, Option, some, List, ◌∷◌, ◌++◌}
use potat_api.Http.{new_writer}
use potat_api.Services.{Cache}
use potat_api.Uploader.{Files, Outcome}
use potat_api.Uploader.Handle.{Form, set_redis, handle_upload, handle_get, handle_delete}

-- `tasks` are the setRedis goroutines that have not run.
pub record Service (c : Cache) (f : Files) : Type 0 where
  pub cache : c.State
  pub rows : f.State
  pub tasks : List (String × String)

-- After a request that was answered.
abbrev pub answered : {c : Cache} {f : Files} → Service c f → Outcome f.State → Service c f
answered s o = record { cache = s.cache; rows = o.rows; tasks = o.spawned ++ s.tasks }

-- `Asked key hash` says which requests to delete ever come, and `Foreign` which keys others write: the
-- limiters count under the address of a request.
module _ (c : Cache) (f : Files) (hasher detect : String → String)
    (Asked : String → String → Type 0) (Foreign : String → Type 0) where
  pub data Step : Service c f → Service c f → Type 0 where
    upload :
        {s : Service c f} (form : Form) (drawn : Option String)
        → Step s (answered s (handle_upload f hasher detect form drawn s.rows new_writer))
    get :
        {s : Service c f} (key : String)
        → Step s (answered s (handle_get f hasher detect c key s.cache s.rows new_writer))
    delete :
        {s : Service c f} (key hash : String)
        → Asked key hash
        → Step s (record s {
          cache = (handle_delete f hasher detect c key hash s.cache s.rows new_writer).1;
          rows = (handle_delete f hasher detect c key hash s.cache s.rows new_writer).0.1;
        })
    -- A goroutine runs; any of them may be the next.
    fill :
        {s : Service c f} (e : String × String) (before after : List (String × String))
        → s.tasks ≡ before ++ e ∷ after
        → Step s (record {
          cache = set_redis f hasher detect c e.0 e.1 s.cache;
          rows = s.rows;
          tasks = before ++ after;
        })
    -- Redis drops entries.
    expire :
        {s : Service c f} (cache : c.State)
        → ((k v : String) → c.contents k cache ≡ some v → c.contents k s.cache ≡ some v)
        → Step s (record s { cache = cache })
    -- Others change what is under a key of theirs.
    foreign :
        {s : Service c f} (j : String) (cache : c.State)
        → Foreign j
        → ((k : String) → j ≢ k → c.contents k cache ≡ c.contents k s.cache)
        → Step s (record s { cache = cache })

  pub data Run : Service c f → Service c f → Type 0 where
    stop : {s : Service c f} → Run s s
    next : {s t u : Service c f} → Step s t → Run t u → Run s u
