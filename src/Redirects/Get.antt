-- ===== src/Redirects/Get.antt =====
-- getRedirect of redirects/redirects.go, with its access to the cache. The goroutine that fills the
-- cache is a task that the handler leaves behind.
pub mod Laws
use potat_api.Base.{
  ℕ, String, Bool, true, false, Option, none, some, List, [], ◌∷◌, Reply, value, absent, fault,
  str_eq, ◌||◌, if◌then◌else◌,
}
use potat_api.Http.{Writer, set_header, http_error, redirect}
use potat_api.Services.{Cache, non_empty}
use potat_api.Redirects.{Table, get_redirect_by_key}
use potat_api.Redirects.Clean.{clean}

-- What a handler did: its writer, and the entries that its goroutines will cache.
pub record Outcome (J : Type 0) : Type 0 where
  pub writer : Writer J
  pub spawned : List (String × String)

abbrev pub hour : ℕ
hour = 3600

-- getRedis: a missing key is the empty text and no error; `none` is an error.
abbrev pub found : Reply String → Option String
found (value v) = some v
found absent = some ""
found fault = none

-- After a miss, by the table's answer.
unfoldable pub look_up : {J : Type 0} → String → Reply String → Writer J → Outcome J
look_up key (value url) w = record {
  writer = redirect (clean url) 303 w;
  spawned = (key, clean url) ∷ [];
}
look_up key absent w = record { writer = http_error "404 page not found" 404 w; spawned = [] }
look_up key fault w = record { writer = http_error "Internal Server Error" 500 w; spawned = [] }

-- By what the cache has: a text that is not empty, or nothing.
unfoldable pub serve : {J : Type 0} → String → Option String → Reply String → Writer J → Outcome J
serve key (some url) row w = record {
  writer = redirect url 303 (set_header "X-Cache-Hit" "HIT" w);
  spawned = [];
}
serve key none row w = look_up key row (set_header "X-Cache-Hit" "MISS" w)

module _ (c : Cache) where
  unfoldable pub get_redis : String → c.State → Option String
  get_redis key s = found (c.get key s)

  -- setRedis; its error is logged only.
  unfoldable pub set_redis : String → String → c.State → c.State
  set_redis key url s = (c.set_ex key url hour s).1

  module _ (t : Table) {J : Type 0} where
    unfoldable pub get_redirect : String → c.State → t.State → Writer J → Outcome J
    get_redirect key s rows w =
        if str_eq key ""
        then record { writer = http_error "404 page not found" 404 w; spawned = [] }
        else serve key (non_empty (get_redis key s)) (get_redirect_by_key t key rows) w
