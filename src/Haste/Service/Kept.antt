-- ===== src/Haste/Service/Kept.antt =====
-- What any run of the paste service keeps of a document that is stored (haste/haste.go).
use mathlib.Core.Path.{subst}
use potat_api.Base.{
  ◌≡◌, refl, sym, ap, ◌∙◌, inl, inr, String, Option, none, some, some_inj, List, [], ◌∷◌, fault,
  Reply, value, absent, Bool-cases, str_eq, eq_iff, All, All-append, All-split, Option-cases,
}
use potat_api.Http.{Writer, new_writer}
use potat_api.Services.{Cache, non_empty}
use potat_api.Haste.{Pastes, Answer, Task, Outcome, get_haste, new_haste, stored}
use potat_api.Haste.Get.{
  Style, as_json, as_text, set_redis, found, look_up, serve, get_redis, fetch, handle_get,
  handle_get_raw, before_dot,
}
use potat_api.Haste.Get.Laws.{found_value}
use potat_api.Haste.Post.{Draw, settle, choose_key}
use potat_api.Haste.Service.{
  Service, answered, Step, Run, stop, next, choose, insert, get, get_raw, fill, cancel, expire,
  foreign,
}

module _ (c : Cache) (p : Pastes) (encode : String → String) (k text : String) where
  -- A task is not of the key, or has its document.
  abbrev pub IsDue : Task → Type 0
  IsDue t = k ≡ t.key → t.text ≡ text

  -- The document is in the table, and what is cached under its key, or will be, is the document.
  pub record IsKept (s : Service c p) : Type 0 where
    pub here : stored p encode k s.rows ≡ some text
    pub cached : (v : String) → c.contents k s.cache ≡ some v → v ≡ text
    pub due : All IsDue s.tasks

  settle-keeps :
      {S : Type 0} (P : S → Type 0) (key : String) (r : Reply String) (s : S) (later : Draw × S)
      → P s
      → P later.1
      → P (settle key (r, s) later).1
  unfolding settle
  settle-keeps P key (value v) s later now after = elim (Bool-cases (str_eq v "")) [
    | inl blank ↦ rw blank now
    | inr full ↦ rw full after
  ]
  settle-keeps P key absent s later now after = now
  settle-keeps P key fault s later now after = now

  choose_key-keeps :
      (j : String) (draws : List (Option String)) (s : p.State)
      → p.row j (choose_key p encode draws s).1 ≡ p.row j s
  unfolding choose_key get_haste
  choose_key-keeps j [] s = refl
  choose_key-keeps j (none ∷ draws) s = refl
  choose_key-keeps j (some i ∷ draws) s =
      let kept = p.update-row (encode i) j s in
      settle-keeps (λ s'. p.row j s' ≡ p.row j s) i (p.update (encode i) s).0
        (p.update (encode i) s).1 (choose_key p encode draws (p.update (encode i) s).1) kept
        (choose_key-keeps j draws (p.update (encode i) s).1 ∙ kept)

  new_haste-keeps :
      (key body source : String) (s : p.State)
      → stored p encode k s ≡ some text
      → stored p encode k (new_haste p encode key body source s).1 ≡ some text
  unfolding new_haste
  new_haste-keeps key body source s here = elim (Bool-cases (str_eq (encode key) (encode k))) [
    | inl same ↦
        let e = (eq_iff (encode key) (encode k)).0 same in
        sym (ap (λ j. p.row j (p.insert_row (encode key) body source s).1) e)
        ∙ p.insert_row-old (encode key) body source text s (ap (λ j. p.row j s) e ∙ here)
    | inr apart ↦
        p.insert_row-other (encode key) (encode k) body source s
          (λ e. cc (apart, (eq_iff (encode key) (encode k)).1 e))
        ∙ here
  ]

  -- What an outcome has to do for the document to stay.
  abbrev pub IsGood : Outcome p.State → Type 0
  IsGood o = (stored p encode k o.rows ≡ some text) × All IsDue o.spawned

  look_up-IsGood :
      (style : Style) (key : String) (data' : Option String) (w : Writer Answer) (rows : p.State)
      → stored p encode k rows ≡ some text
      → ((v : String) → data' ≡ some v → k ≡ key → v ≡ text)
      → IsGood (look_up style key data' w rows)
  unfolding look_up
  look_up-IsGood style key none w rows here known = (here, tt)
  look_up-IsGood style key (some v) w rows here known = (here, (known v refl, tt))

  fetch-IsGood :
      (style : Style) (key : String) (s : c.State) (rows : p.State) (w : Writer Answer)
      → stored p encode k rows ≡ some text
      → IsGood (fetch c p encode style key s rows w)
  unfolding fetch serve get_haste
  fetch-IsGood style key s rows w here = elim (Option-cases (non_empty (get_redis c key s))) [
    | inr (v, hit) ↦ rw (hit, serve) (here, tt)
    | inl miss ↦
        rw (miss, serve)
          (look_up-IsGood style key (non_empty (found (p.update (encode key) rows).0)) w
            (p.update (encode key) rows).1 (p.update-row (encode key) (encode k) rows ∙ here)
            (λ v h e. some_inj (
              sym (p.update-value (encode key) v rows (found_value _ v h))
              ∙ (sym (ap (λ j. p.row (encode j) rows) e) ∙ here))))
  ]

  answered-IsKept :
      (s : Service c p) (o : Outcome p.State) → IsKept s → IsGood o → IsKept (answered s o)
  answered-IsKept s o kept (here, due) = record {
    here = here;
    cached = kept.cached;
    due = All-append IsDue o.spawned s.tasks due kept.due;
  }

  handle_get-IsGood :
      (key : String) (s : c.State) (rows : p.State) (w : Writer Answer)
      → stored p encode k rows ≡ some text
      → IsGood (handle_get c p encode key s rows w)
  unfolding handle_get
  handle_get-IsGood key s rows w here = elim (Bool-cases (str_eq key "")) [
    | inl empty ↦ rw empty (here, tt)
    | inr given ↦ rw given (fetch-IsGood as_json key s rows w here)
  ]

  handle_get_raw-IsGood :
      (key : String) (s : c.State) (rows : p.State) (w : Writer Answer)
      → stored p encode k rows ≡ some text
      → IsGood (handle_get_raw c p encode key s rows w)
  unfolding handle_get_raw
  handle_get_raw-IsGood key s rows w here = elim (Bool-cases (str_eq key "")) [
    | inl empty ↦ rw empty (here, tt)
    | inr given ↦ rw given (fetch-IsGood as_text (before_dot key) s rows w here)
  ]

  set_redis-cached :
      (key body v : String) (cache : c.State)
      → (k ≡ key → body ≡ text)
      → ((u : String) → c.contents k cache ≡ some u → u ≡ text)
      → c.contents k (set_redis c key body cache) ≡ some v
      → v ≡ text
  unfolding set_redis
  set_redis-cached key body v cache due cached held = elim (Bool-cases (str_eq key k)) [
    | inr apart ↦
        cached v
          (sym (c.set_ex-other key k body 3600 cache (λ e. cc (apart, (eq_iff key k).1 e))) ∙ held)
    | inl same ↦
        let e : k ≡ key = sym ((eq_iff key k).0 same) in
        elim (c.set_ex-stores key body 3600 cache) [
          | inl new ↦ let stored' : body ≡ v = cc in sym stored' ∙ due e
          | inr old ↦ let there : c.contents k cache ≡ some v = cc in cached v there
        ]
  ]

  module _ (Foreign : String → Type 0) (alone : Foreign k → ⊥) where
    Step-IsKept : (s t : Service c p) → Step c p encode Foreign s t → IsKept s → IsKept t
    Step-IsKept s _ (choose body source draws) kept = record {
      here = choose_key-keeps (encode k) draws s.rows ∙ kept.here;
      cached = kept.cached;
      due = kept.due;
    }
    Step-IsKept s _ (insert n before after waits) kept = record {
      here = new_haste-keeps n.key n.text n.source s.rows kept.here;
      cached = kept.cached;
      due = kept.due;
    }
    Step-IsKept s _ (get key) kept =
        answered-IsKept s (handle_get c p encode key s.cache s.rows new_writer) kept
          (handle_get-IsGood key s.cache s.rows new_writer kept.here)
    Step-IsKept s _ (get_raw key) kept =
        answered-IsKept s (handle_get_raw c p encode key s.cache s.rows new_writer) kept
          (handle_get_raw-IsGood key s.cache s.rows new_writer kept.here)
    Step-IsKept s _ (fill t before after waits) kept =
        let (this, rest) = All-split IsDue before t after (rw waits at kept.due) in
        record {
          here = kept.here;
          cached = λ v held. set_redis-cached t.key t.text v s.cache this kept.cached held;
          due = rest;
        }
    Step-IsKept s _ (cancel t before after waits) kept =
        let (_, rest) = All-split IsDue before t after (rw waits at kept.due) in
        record { here = kept.here; cached = kept.cached; due = rest }
    Step-IsKept s _ (expire cache drops) kept = record {
      here = kept.here;
      cached = λ v held. kept.cached v (drops k v held);
      due = kept.due;
    }
    Step-IsKept s _ (foreign j cache theirs others) kept = record {
      here = kept.here;
      cached =
          λ v held. kept.cached v (sym (others k (λ e. alone (subst Foreign e theirs))) ∙ held);
      due = kept.due;
    }

    pub Run-IsKept : (s t : Service c p) → Run c p encode Foreign s t → IsKept s → IsKept t
    Run-IsKept s _ stop kept = kept
    Run-IsKept s u (next {t = t} step rest) kept = Run-IsKept t u rest (Step-IsKept s t step kept)
