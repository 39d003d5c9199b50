-- ===== src/Haste/Post/Stores.antt =====
-- POST /documents of haste/haste.go as a whole: every branch, its end, and the way back.
use potat_api.Base.{
  ◌≡◌, ◌≢◌, refl, sym, ap, ◌∙◌, ◌⊎◌, inl, inr, String, false, Option, none, some, List, [], ◌∷◌,
  ◌++◌, fault, Bool-cases, some_inj, str_eq, eq_iff, arith, All, Reply-cases,
}
use potat_api.Http.{Writer, json, http_error}
use potat_api.Services.{Cache}
use potat_api.Haste.{Pastes, Answer, document, created, get_haste, stored, Keeps}
use potat_api.Haste.Get.{as_json, handle_get}
use potat_api.Haste.Get.Laws.{IsCoherent, fetch-finds}
use potat_api.Haste.Post.{Post, chosen, settle, choose_key, handle_post}
use potat_api.Haste.Post.Laws.{IsFilled, Adds, Rejects, read_body-Ends}

module _ (p : Pastes) (encode : String → String) (parse : String → Option String) where
  -- A post that is answered either adds its body, which is not empty, under a key that had no
  -- document, sends that key with the status 200 and touches no other document; or it adds nothing
  -- and is answered 400, 411, 415 or 500.
  pub handle_post-Ends :
      (post : Post) (draws : List (Option String)) (s : p.State) (w : Writer Answer)
      (r : Writer Answer × p.State)
      → w.status ≡ none
      → IsFilled p encode s
      → handle_post p encode parse post draws s w ≡ some r
      → ((text : String) × (post.body ≡ some text)
          × (str_eq text "" ≡ false)
          × Adds p encode text s w r)
        ⊎ Rejects p encode s r
  unfolding handle_post
  handle_post-Ends post draws s w r blank filled h = elim (Bool-cases post.form_ok) [
    | inl parsed ↦
        read_body-Ends p encode post.body _ _ draws s w r blank filled
          (rw (parsed, handle_post) at h)
    | inr refused ↦
        let e = some_inj (rw (refused, handle_post) at h) in
        inr (rw (← e) (λ j. refl, inl (unfold http_error in rw blank refl)))
  ]

  -- Documents are never changed: each one that is there before a post is there after it.
  pub handle_post_keeps :
      (post : Post) (draws : List (Option String)) (s s' : p.State) (w w' : Writer Answer)
      (j v : String)
      → w.status ≡ none
      → IsFilled p encode s
      → handle_post p encode parse post draws s w ≡ some (w', s')
      → p.row j s ≡ some v
      → p.row j s' ≡ some v
  handle_post_keeps post draws s s' w w' j v blank filled h there =
      elim (handle_post-Ends post draws s w (w', s') blank filled h) [
        | inr (kept, _) ↦ kept j ∙ there
        | inl (text, sent, full, (key, new, added, others, _, _)) ↦
            elim (Bool-cases (str_eq (encode key) j)) [
              | inl same ↦ absurd (cc (new, there, (eq_iff (encode key) j).0 same))
              | inr apart ↦ others j (λ e. cc (apart, (eq_iff (encode key) j).1 e)) ∙ there
            ]
      ]

  -- A post never makes a document empty.
  pub handle_post-IsFilled :
      (post : Post) (draws : List (Option String)) (s s' : p.State) (w w' : Writer Answer)
      → w.status ≡ none
      → IsFilled p encode s
      → handle_post p encode parse post draws s w ≡ some (w', s')
      → IsFilled p encode s'
  handle_post-IsFilled post draws s s' w w' blank filled h j empty =
      elim (handle_post-Ends post draws s w (w', s') blank filled h) [
        | inr (kept, _) ↦ filled j (sym (kept j) ∙ empty)
        | inl (text, sent, full, (key, new, added, others, _, _)) ↦
            elim (Bool-cases (str_eq (encode key) j)) [
              | inr apart ↦
                  filled j (sym (others j (λ e. cc (apart, (eq_iff (encode key) j).1 e))) ∙ empty)
              | inl same ↦
                  let e = (eq_iff (encode key) j).0 same in
                  let blank' : text ≡ "" =
                    some_inj (sym added ∙ (ap (λ (i : String). p.row i s') e ∙ empty)) in
                  absurd (cc (full, (eq_iff text "").1 blank'))
            ]
      ]

  -- A post answered 200 has stored its body, which is not empty, under the key that it sent.
  pub handle_post-stored :
      (post : Post) (draws : List (Option String)) (s s' : p.State) (w w' : Writer Answer)
      (text key : String)
      → w.status ≡ none
      → w.chunks ≡ []
      → IsFilled p encode s
      → handle_post p encode parse post draws s w ≡ some (w', s')
      → w'.status ≡ some 200
      → w'.chunks ≡ json (created key) ∷ []
      → post.body ≡ some text
      → (stored p encode key s' ≡ some text) × (str_eq text "" ≡ false)
  handle_post-stored post draws s s' w w' text key blank clean filled h good sent had =
      elim (handle_post-Ends post draws s w (w', s') blank filled h) [
        | inr (kept, code) ↦ absurd (ground arith)
        | inl (text', had', full, (key', new, added, others, _, answer)) ↦
            let same_text : text' ≡ text = some_inj (sym had' ∙ had) in
            let e : json (created key') ∷ [] ≡ json (created key) ∷ [] =
              sym (rw clean at answer) ∙ sent in
            let same_key : key' ≡ key = cc in
            (rw (← same_key, ← same_text) added, rw (← same_text) full)
      ]

  -- The round trip: what a post answered 200 is found again under the key that it sent, by
  -- GET /documents/{key} as JSON with the body that was posted, if the key is not the empty one and
  -- the database answers, while Redis has nothing under the key but its document.
  pub handle_get-handle_post :
      (c : Cache) (cache : c.State) (post : Post) (draws : List (Option String)) (s s' : p.State)
      (w' : Writer Answer) (text : String) (w : Writer Answer) (key : String)
      → w.status ≡ none
      → w.chunks ≡ []
      → IsFilled p encode s
      → handle_post p encode parse post draws s w ≡ some (w', s')
      → w'.status ≡ some 200
      → w'.chunks ≡ json (created key) ∷ []
      → post.body ≡ some text
      → str_eq key "" ≡ false
      → IsCoherent c p encode key cache s'
      → (get_haste p encode key s').0 ≢ fault
      → ((handle_get c p encode key cache s' w).writer.status ≡ some 200)
        × ((handle_get c p encode key cache s' w).writer.chunks ≡ json (document key text) ∷ [])
  unfolding handle_get
  handle_get-handle_post c cache post draws s s' w' text w key blank clean filled h good sent had
        given coherent up =
      let (there, full) =
        handle_post-stored post draws s s' w w' text key blank clean filled h good sent had in
      let (good', shown) =
        fetch-finds c p encode as_json key text cache s' w coherent blank there full up in
      rw given (good', shown ∙ rw clean refl)

module _ (p : Pastes) (encode : String → String) where
  -- The loop of chooseKey ends once a key is drawn that has no document: while no draw and no query
  -- fails and no document is empty, it then gives a key that has no document, and changes none.
  pub choose_key_ends :
      (draws rest : List (Option String)) (k : String) (s : p.State)
      → All (λ d. d ≢ none) draws
      → ((j : String) (s' : p.State) → (p.update j s').0 ≢ fault)
      → IsFilled p encode s
      → stored p encode k s ≡ none
      → let r = choose_key p encode (draws ++ some k ∷ rest) s in
        (j : String) × (r.0 ≡ chosen j) × (stored p encode j s ≡ none) × Keeps p s r.1
  unfolding choose_key get_haste
  choose_key_ends [] rest k s drawn up filled free = elim (Reply-cases (p.update (encode k) s).0) [
    | inl (v, e) ↦ absurd (cc (free, p.update-value (encode k) v s e))
    | inr (inl e) ↦
        (k, rw (e, settle) refl, free, rw (e, settle) (λ i. p.update-row (encode k) i s))
    | inr (inr e) ↦ absurd (up (encode k) s e)
  ]
  choose_key_ends (none ∷ draws) rest k s (bad, drawn) up filled free = absurd (bad refl)
  choose_key_ends (some j ∷ draws) rest k s (_, drawn) up filled free =
      let kept : Keeps p s (p.update (encode j) s).1 = λ i. p.update-row (encode j) i s in
      elim (Reply-cases (p.update (encode j) s).0) [
        | inl (v, e) ↦
            let there = p.update-value (encode j) v s e in
            let full : str_eq v "" ≡ false = elim (Bool-cases (str_eq v "")) [
              | inl blank ↦ absurd (filled (encode j) (cc (there, (eq_iff v "").0 blank)))
              | inr other ↦ other
            ] in
            let (i, gives, none_there, same) =
              choose_key_ends draws rest k (p.update (encode j) s).1 drawn up
                (λ i h. filled i (sym (kept i) ∙ h)) (kept (encode k) ∙ free) in
            (
              i,
              rw (e, settle, full) gives,
              sym (kept (encode i)) ∙ none_there,
              rw (e, settle, full) (λ l. same l ∙ kept l),
            )
        | inr (inl e) ↦
            (j, rw (e, settle) refl, p.update-absent (encode j) s e, rw (e, settle) kept)
        | inr (inr e) ↦ absurd (up (encode j) s e)
      ]
