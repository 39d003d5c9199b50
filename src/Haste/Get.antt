-- ===== src/Haste/Get.antt =====
-- handleGet and handleGetRaw of haste/haste.go. They differ in how a document is sent and in the
-- context of the goroutine that fills the cache.
pub mod Laws
use Prim.Native.Char.{code}
use potat_api.Base.{
  ◌≡◌, String, Bool, true, false, Option, none, some, List, [], ◌∷◌, Reply, value, absent, fault,
  str_eq, ◌==◌, ℕ, if◌then◌else◌,
}
use potat_api.Http.{Writer, Chunk, raw, json, set_header, write_header, write, http_error}
use potat_api.Services.{Cache, non_empty}
use potat_api.Haste.{Pastes, Answer, document, Outcome, get_haste}

pub data Style : Type 0 where
  as_json : Style
  as_text : Style

abbrev pub body : Style → String → String → Chunk Answer
body as_json key text = json (document key text)
body as_text key text = raw text

abbrev pub content_type : Style → String
content_type as_json = "application/json"
content_type as_text = "text/plain; charset=utf-8"

abbrev pub is_detached : Style → Bool
is_detached as_json = false
is_detached as_text = true

unfoldable pub send : Style → String → String → String → Writer Answer → Writer Answer
unfolding set_header write_header write
send style key text hit w = write (body style key text) (
    write_header 200
      (set_header "X-Cache-Hit" hit (set_header "Content-Type" (content_type style) w)))

-- getRedis: any error, a missing key among them, is `none`.
abbrev pub found : Reply String → Option String
found (value v) = some v
found absent = none
found fault = none

-- `strings.Split(key, ".")[0]`, which is the key where it has no dot.
unfoldable pub before_dot : String → String
before_dot String.[] = String.[]
before_dot (String.◌∷◌ c s) =
    let rest = before_dot s in if code c == b'.' then String.[] else String.◌∷◌ c rest

-- After GetHaste: `data` is `none` on an error, and where the text is empty.
unfoldable pub look_up :
    {S : Type 0} → Style → String → Option String → Writer Answer → S → Outcome S
look_up style key none w rows = record {
  writer = http_error "Document not found" 404 w;
  spawned = [];
  rows = rows;
}
look_up style key (some text) w rows = record {
  writer = send style key text "MISS" w;
  spawned = record { key = key; text = text; detached = is_detached style } ∷ [];
  rows = rows;
}

-- By what the cache has; GetHaste runs on a miss only.
unfoldable pub serve :
    {S : Type 0} → Style → String → Option String → Reply String × S → Writer Answer → S → Outcome S
serve style key (some text) fetched w rows = record {
  writer = send style key text "HIT" w;
  spawned = [];
  rows = rows;
}
serve style key none (row, rows') w rows = look_up style key (non_empty (found row)) w rows'

module _ (c : Cache) where
  unfoldable pub get_redis : String → c.State → Option String
  get_redis key s = found (c.get key s)

  -- setRedis, for an hour; its error is logged only.
  unfoldable pub set_redis : String → String → c.State → c.State
  set_redis key text s = (c.set_ex key text 3600 s).1

  module _ (p : Pastes) (encode : String → String) where
    unfoldable pub fetch : Style → String → c.State → p.State → Writer Answer → Outcome p.State
    fetch style key s rows w =
        serve style key (non_empty (get_redis key s)) (get_haste p encode key rows) w rows

    unfoldable pub handle_get : String → c.State → p.State → Writer Answer → Outcome p.State
    unfolding fetch
    handle_get key s rows w =
        if str_eq key ""
        then record { writer = http_error "Key not provided" 400 w; spawned = []; rows = rows }
        else fetch as_json key s rows w

    unfoldable pub handle_get_raw : String → c.State → p.State → Writer Answer → Outcome p.State
    unfolding fetch before_dot
    handle_get_raw key s rows w =
        if str_eq key ""
        then record { writer = http_error "Key not provided" 400 w; spawned = []; rows = rows }
        else fetch as_text (before_dot key) s rows w
