-- ===== src/Haste/Static.antt =====
-- The server of StartServing in haste/haste.go with the static files. What filepath.Walk finds and
-- http.FileServer are parameters, the handlers are those of Get and Post, and the router of
-- gorilla/mux is the record Mux of Api/Server. A call of Fatalf is none.
use Prim.Native.String.{◌++◌ as append}
use mathlib.Core.Path.{subst}
use potat_api.Base.{
  ◌≡◌, refl, sym, ◌∙◌, ◌⊎◌, inl, inr, String, Bool, true, false, ◌||◌, Option, none, some, List, [],
  ◌∷◌, All, IsIn, get_elem?, strip_prefix, strip_prefix_sound, str_eq, eq_iff, Bool-cases, some_inj,
  if◌then◌else◌,
}
use potat_api.Http.{Request, Handler, write_header, http_error}
use potat_api.Middleware.RateLimit.{Counters, Formats, rate_limiter}
use potat_api.Middleware.Auth.{or_whole}
use potat_api.Api.Server.{Mux, Match, found_at, method_mismatch, no_match}

-- What Walk finds under the folder.
pub record Entry : Type 0 where
  pub path : String
  pub is_dir : Bool

-- strings.TrimPrefix
abbrev pub trim_prefix : String → String → String
trim_prefix p s = or_whole (strip_prefix p s) s

-- The keys of the map.
unfoldable pub relative_paths : String → List Entry → List String
relative_paths static_path [] = []
relative_paths static_path (e ∷ es) =
    let rest = relative_paths static_path es in
    if e.is_dir then rest else trim_prefix static_path e.path ∷ rest

unfoldable pub load_static_files : String → Option (List Entry) → Option (List String)
unfolding relative_paths
load_static_files static_path none = none
load_static_files static_path (some es) = some (relative_paths static_path es)

abbrev pub has_path : String → List String → Bool
has_path p [] = false
has_path p (q ∷ qs) = str_eq q p || has_path p qs

-- The path for which the file server is asked.
unfoldable pub static_file : List String → String → String
static_file files path = if has_path path files then path else "/"

has_path-IsIn : (p : String) (qs : List String) → has_path p qs ≡ true → IsIn p qs
has_path-IsIn p [] h = absurd (cc)
has_path-IsIn p (q ∷ qs) h = elim (Bool-cases (str_eq q p)) [
  | inl same ↦ inl (sym ((eq_iff q p).0 same))
  | inr other ↦ inr (has_path-IsIn p qs (rw other at h))
]

abbrev pub IsUnder : String → List Entry → Type 0
IsUnder static_path es =
    All (λ e. (rest : String) × (strip_prefix static_path e.path ≡ some rest)) es

relative_paths_sound :
    (static_path : String) (es : List Entry) (p : String)
    → IsUnder static_path es
    → IsIn p (relative_paths static_path es)
    → (e : Entry) × IsIn e es × (e.is_dir ≡ false) × (e.path ≡ append static_path p)
unfolding relative_paths
relative_paths_sound static_path [] p under h = absurd h
relative_paths_sound static_path (x ∷ es) p ((rest, there), under) h = elim (Bool-cases x.is_dir) [
  | inl folder ↦
      let (e, within, file, same) = relative_paths_sound static_path es p under (rw folder at h) in
      (e, inr within, file, same)
  | inr file ↦ elim (rw file at h) [
    | inl here ↦
        let e : p ≡ rest = here ∙ (rw there refl) in
        (x, inl refl, file, rw e (strip_prefix_sound static_path x.path rest there))
    | inr later ↦
        let (e, within, file', same) = relative_paths_sound static_path es p under later in
        (e, inr within, file', same)
  ]
]

-- Whatever path a request has, the file server is asked for "/" or for a file that was there at the
-- start, never for a folder or anything outside.
pub static_file_sound :
    (static_path path : String) (es : List Entry) (files : List String)
    → IsUnder static_path es
    → load_static_files static_path (some es) ≡ some files
    → (static_file files path ≡ "/")
      ⊎ ((e : Entry) × IsIn e es
          × (e.is_dir ≡ false)
          × (e.path ≡ append static_path (static_file files path)))
unfolding load_static_files static_file
static_file_sound static_path path es files under loaded = elim (Bool-cases (has_path path files)) [
  | inr unknown ↦ inl (rw unknown refl)
  | inl known ↦ inr (
      rw known (
        relative_paths_sound static_path es path under
          (subst (IsIn path) (sym (some_inj loaded)) (has_path-IsIn path files known))))
]

abbrev pub routes : List (String × String)
routes =
    ("GET", "/raw/{id}")
    ∷ ("POST", "/documents")
    ∷ ("GET", "/documents/{id}")
    ∷ ("GET", "/{prefix}")
    ∷ []

module _ (r : Counters) {J : Type 0} (f : Formats) (url_path : Request → String)
    (file_server : String → Handler J r.State) (files : List String)
    (handle_get_raw handle_post handle_get : Handler J r.State) where
  open r use {State}

  unfoldable pub serve_static : Handler J State
  unfolding static_file
  serve_static req w s = file_server (static_file files (url_path req)) req w s

  abbrev pub handlers : List (Handler J State)
  handlers = handle_get_raw ∷ handle_post ∷ handle_get ∷ serve_static ∷ []

  abbrev pub serve_at : Option (Handler J State) → Handler J State
  serve_at none req w s = (http_error "404 page not found" 404 w, s)
  serve_at (some handler) req w s = rate_limiter r f 100 60 handler req w s

  abbrev pub serve_match : Match → Handler J State
  serve_match (found_at i) req w s = serve_at (get_elem? handlers i) req w s
  serve_match method_mismatch req w s = (write_header 405 w, s)
  serve_match no_match req w s = (http_error "404 page not found" 404 w, s)

  unfoldable pub serve : Mux → Handler J State
  unfolding serve_static
  serve mux req w s = serve_match (mux.match_route routes req) req w s
