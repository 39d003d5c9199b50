-- ===== src/Haste/Get/Laws.antt =====
-- What the two read handlers of haste/haste.go answer.
use potat_api.Base.{
  ◌≡◌, ◌≢◌, refl, ◌⊎◌, inl, inr, String, false, Reply-cases, Option, none, some, [], ◌∷◌, ◌++◌,
  Reply, value, absent, fault, Option-cases, str_eq, All, arith,
}
use potat_api.Http.{Writer, http_error}
use potat_api.Services.{Cache, non_empty}
use potat_api.Haste.{Pastes, Answer, Outcome, Task, get_haste, stored, Keeps}
use potat_api.Haste.Get.{
  Style, body, is_detached, send, found, serve, before_dot, look_up, get_redis, fetch, handle_get,
  handle_get_raw, as_json, as_text,
}

pub found_value : (r : Reply String) (v : String) → non_empty (found r) ≡ some v → r ≡ value v
found_value (value x) v h = ground arith
found_value absent v h = cc
found_value fault v h = cc

module _ (c : Cache) (p : Pastes) (encode : String → String) where
  -- What is cached under the key, if anything, is the document of the key.
  abbrev pub IsCoherent : String → c.State → p.State → Type 0
  IsCoherent k s rows = (v : String) → c.contents k s ≡ some v → stored p encode k rows ≡ some v

  -- The key has no document, or an empty one, or the database fails.
  abbrev pub IsMissing : String → p.State → Type 0
  IsMissing key rows =
      (non_empty (stored p encode key rows) ≡ none) ⊎ ((get_haste p encode key rows).0 ≡ fault)

  -- The outcome sends the key's document with the status 200, and what it leaves to cache is that
  -- too; or it is a 404 page for a missing document, and nothing is cached. No document changes.
  abbrev pub Serves : Style → String → p.State → Writer Answer → Outcome p.State → Type 0
  Serves style key rows w o =
      (((text : String) × (stored p encode key rows ≡ some text)
          × (o.writer.status ≡ some 200)
          × (o.writer.chunks ≡ w.chunks ++ body style key text ∷ [])
          × All (λ (t : Task). (t.key ≡ key) × (t.text ≡ text) × (t.detached ≡ is_detached style))
              o.spawned)
        ⊎ ((o.writer.status ≡ some 404) × (o.spawned ≡ []) × IsMissing key rows))
      × Keeps p rows o.rows

  found-none :
      (key : String) (rows : p.State)
      → non_empty (found (get_haste p encode key rows).0) ≡ none
      → IsMissing key rows
  unfolding get_haste
  found-none key rows h = elim (Reply-cases (p.update (encode key) rows).0) [
    | inl (v, e) ↦ inl (rw (p.update-value (encode key) v rows e) (rw e at h))
    | inr (inl e) ↦ inl (rw (p.update-absent (encode key) rows e) refl)
    | inr (inr e) ↦ inr e
  ]

  look_up-Serves :
      (style : Style) (key : String) (data' : Option String) (rows rows' : p.State)
      (w : Writer Answer)
      → Keeps p rows rows'
      → ((v : String) → data' ≡ some v → stored p encode key rows ≡ some v)
      → (data' ≡ none → IsMissing key rows)
      → w.status ≡ none
      → Serves style key rows w (look_up style key data' w rows')
  unfolding look_up
  look_up-Serves style key none rows rows' w same known lost blank =
      (inr (unfold http_error in rw blank refl, refl, lost refl), same)
  look_up-Serves style key (some v) rows rows' w same known lost blank = (
    inl (
      v,
      known v refl,
      unfold send in rw blank refl,
      unfold send in refl,
      ((refl, refl, refl), tt),
    ),
    same,
  )

  serve-Serves :
      (style : Style) (key : String) (hit : Option String) (rows : p.State) (w : Writer Answer)
      → ((v : String) → hit ≡ some v → stored p encode key rows ≡ some v)
      → w.status ≡ none
      → Serves style key rows w (serve style key hit (get_haste p encode key rows) w rows)
  unfolding serve get_haste
  serve-Serves style key none rows w known blank =
      look_up-Serves style key _ rows _ w (λ k. p.update-row (encode key) k rows)
        (λ v h. p.update-value (encode key) v rows (found_value _ v h)) (found-none key rows) blank
  serve-Serves style key (some v) rows w known blank =
      (inl (v, known v refl, unfold send in rw blank refl, unfold send in refl, tt), λ k. refl)

  fetch-Serves :
      (style : Style) (key : String) (s : c.State) (rows : p.State) (w : Writer Answer)
      → IsCoherent key s rows
      → w.status ≡ none
      → Serves style key rows w (fetch c p encode style key s rows w)
  unfolding fetch get_redis
  fetch-Serves style key s rows w coherent blank =
      serve-Serves style key _ rows w (λ v h. coherent v (c.get-value key v s (found_value _ v h)))
        blank

  -- While Redis has nothing under the key but the key's document, GET /documents/{id} answers a key
  -- that is not empty with its document as JSON, or with 404 if there is none or the database fails,
  -- and then caches nothing; what it caches is that document; and no document changes.
  pub handle_get-Serves :
      (key : String) (s : c.State) (rows : p.State) (w : Writer Answer)
      → IsCoherent key s rows
      → str_eq key "" ≡ false
      → w.status ≡ none
      → Serves as_json key rows w (handle_get c p encode key s rows w)
  unfolding handle_get
  handle_get-Serves key s rows w coherent given blank =
      rw given (fetch-Serves as_json key s rows w coherent blank)

  -- While Redis has nothing under the part of the key before its first dot but the document of that
  -- part, GET /raw/{id} answers a key that is not empty with this document, as plain text, or with 404 if there is none or the database fails,
  -- and then caches nothing; what it caches is that document; and no document changes.
  pub handle_get_raw-Serves :
      (key : String) (s : c.State) (rows : p.State) (w : Writer Answer)
      → IsCoherent (before_dot key) s rows
      → str_eq key "" ≡ false
      → w.status ≡ none
      → Serves as_text (before_dot key) rows w (handle_get_raw c p encode key s rows w)
  unfolding handle_get_raw
  handle_get_raw-Serves key s rows w coherent given blank =
      rw given (fetch-Serves as_text (before_dot key) s rows w coherent blank)

  -- A document that is there is found, unless the database fails.
  get_haste-found :
      (key text : String) (rows : p.State)
      → stored p encode key rows ≡ some text
      → str_eq text "" ≡ false
      → (get_haste p encode key rows).0 ≢ fault
      → non_empty (found (get_haste p encode key rows).0) ≡ some text
  unfolding get_haste
  get_haste-found key text rows there full up = elim (Reply-cases (p.update (encode key) rows).0) [
    | inl (v, e) ↦ let same = p.update-value (encode key) v rows e in ground arith
    | inr (inl e) ↦ absurd (cc (p.update-absent (encode key) rows e))
    | inr (inr e) ↦ absurd (up e)
  ]

  pub fetch-finds :
      (style : Style) (key text : String) (s : c.State) (rows : p.State) (w : Writer Answer)
      → IsCoherent key s rows
      → w.status ≡ none
      → stored p encode key rows ≡ some text
      → str_eq text "" ≡ false
      → (get_haste p encode key rows).0 ≢ fault
      → ((fetch c p encode style key s rows w).writer.status ≡ some 200)
        × ((fetch c p encode style key s rows w).writer.chunks
            ≡ w.chunks ++ body style key text ∷ [])
  unfolding fetch get_redis serve look_up
  fetch-finds style key text s rows w coherent blank there full up =
      elim (Option-cases (non_empty (get_redis c key s))) [
        | inl miss ↦
            rw (miss, serve, get_haste-found key text rows there full up, look_up)
              (unfold send in rw blank refl, unfold send in refl)
        | inr (v, hit) ↦
            let cached = coherent v (c.get-value key v s (found_value _ v hit)) in
            let same : v ≡ text = cc in
            rw (hit, serve, same) (unfold send in rw blank refl, unfold send in refl)
      ]

  -- A document whose bytes are not UTF-8 is never read back: GET /documents/{id} answers 404 while
  -- nothing is cached under the key.
  pub handle_get-garbled :
      (key text : String) (s : c.State) (rows : p.State) (w : Writer Answer)
      → c.contents key s ≡ none
      → stored p encode key rows ≡ some text
      → p.is_utf8 text ≡ false
      → str_eq key "" ≡ false
      → w.status ≡ none
      → (handle_get c p encode key s rows w).writer.status ≡ some 404
  unfolding handle_get fetch get_redis serve look_up get_haste http_error
  handle_get-garbled key text s rows w empty there garbled given blank =
      let broken = p.update-garbled (encode key) text rows there garbled in
      elim (Reply-cases (c.get key s)) [
        | inl (v, e) ↦ absurd (cc (empty, c.get-value key v s e))
        | inr (inl e) ↦ rw (given, e, serve, broken, look_up, blank) refl
        | inr (inr e) ↦ rw (given, e, serve, broken, look_up, blank) refl
      ]
