-- ===== src/Haste/Service.antt =====
-- The paste service over time (haste/haste.go): requests, the goroutines that fill the cache, the
-- expiry of cached entries, and what the limiters and the other services write to the same Redis, in
-- any order. A post is two steps, since others may come between its chooseKey and its NewHaste.
mod Kept
pub mod Durable
use potat_api.Base.{◌≡◌, ◌≢◌, String, Option, some, List, ◌∷◌, ◌++◌}
use potat_api.Http.{new_writer}
use potat_api.Services.{Cache}
use potat_api.Haste.{Pastes, Task, Outcome, new_haste}
use potat_api.Haste.Get.{set_redis, handle_get, handle_get_raw}
use potat_api.Haste.Post.{Draw, chosen, failed, looping, choose_key}

-- A key that was chosen, with the text and the source to be stored under it.
pub record Pending : Type 0 where
  pub key : String
  pub text : String
  pub source : String

-- `tasks` are the setRedis goroutines that have not run, `pending` the posts between their steps.
pub record Service (c : Cache) (p : Pastes) : Type 0 where
  pub cache : c.State
  pub rows : p.State
  pub tasks : List Task
  pub pending : List Pending

-- After a request that was answered.
abbrev pub answered : {c : Cache} {p : Pastes} → Service c p → Outcome p.State → Service c p
answered s o = record s { rows = o.rows; tasks = o.spawned ++ s.tasks }

abbrev pub queue : Draw → String → String → List Pending → List Pending
queue (chosen key) text source pending =
    record { key = key; text = text; source = source } ∷ pending
queue failed text source pending = pending
queue looping text source pending = pending

-- `Foreign` are the keys that others write: the limiters count under the address of a request.
module _ (c : Cache) (p : Pastes) (encode : String → String) (Foreign : String → Type 0) where
  pub data Step : Service c p → Service c p → Type 0 where
    choose :
        {s : Service c p} (text source : String) (draws : List (Option String))
        → Step s (record s {
          rows = (choose_key p encode draws s.rows).1;
          pending = queue (choose_key p encode draws s.rows).0 text source s.pending;
        })
    insert :
        {s : Service c p} (n : Pending) (before after : List Pending)
        → s.pending ≡ before ++ n ∷ after
        → Step s (record s {
          rows = (new_haste p encode n.key n.text n.source s.rows).1;
          pending = before ++ after;
        })
    get :
        {s : Service c p} (key : String)
        → Step s (answered s (handle_get c p encode key s.cache s.rows new_writer))
    get_raw :
        {s : Service c p} (key : String)
        → Step s (answered s (handle_get_raw c p encode key s.cache s.rows new_writer))
    -- A goroutine runs; any of them may be the next.
    fill :
        {s : Service c p} (t : Task) (before after : List Task)
        → s.tasks ≡ before ++ t ∷ after
        → Step s (record s { cache = set_redis c t.key t.text s.cache; tasks = before ++ after })
    -- A goroutine whose context is cancelled before it runs.
    cancel :
        {s : Service c p} (t : Task) (before after : List Task)
        → s.tasks ≡ before ++ t ∷ after
        → Step s (record s { tasks = before ++ after })
    -- Redis drops entries.
    expire :
        {s : Service c p} (cache : c.State)
        → ((k v : String) → c.contents k cache ≡ some v → c.contents k s.cache ≡ some v)
        → Step s (record s { cache = cache })
    -- Others change what is under a key of theirs.
    foreign :
        {s : Service c p} (j : String) (cache : c.State)
        → Foreign j
        → ((k : String) → j ≢ k → c.contents k cache ≡ c.contents k s.cache)
        → Step s (record s { cache = cache })

  pub data Run : Service c p → Service c p → Type 0 where
    stop : {s : Service c p} → Run s s
    next : {s t u : Service c p} → Step s t → Run t u → Run s u
