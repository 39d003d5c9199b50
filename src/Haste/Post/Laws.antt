-- ===== src/Haste/Post/Laws.antt =====
-- What handlePost of haste/haste.go stores, and that it can be read back.
use potat_api.Base.{
  ◌≡◌, ◌≢◌, refl, sym, ◌∙◌, ◌⊎◌, inl, inr, String, true, false, Option, none, some, List, [], ◌∷◌,
  ◌++◌, Reply, value, absent, fault, Bool, Bool-cases, some_inj, str_eq, eq_iff,
}
use potat_api.Http.{Writer, json, http_error}
use potat_api.Haste.{Pastes, Keeps, Answer, created, get_haste, new_haste, stored}
use potat_api.Haste.Post.{
  Draw, chosen, failed, looping, settle, choose_key, send_key, confirm, store, accept, is_allowed,
  read_body,
}

module _ (p : Pastes) (encode : String → String) where
  -- No document is empty.
  abbrev pub IsFilled : p.State → Type 0
  IsFilled s = (k : String) → p.row k s ≢ some ""

  -- What one run of chooseKey gives: the documents stay, and a chosen key has none.
  abbrev Fresh : p.State → Draw × p.State → Type 0
  Fresh s (d, s') = Keeps p s s' × ((k : String) → d ≡ chosen k → stored p encode k s ≡ none)

  settle-Fresh :
      (k : String) (s s' : p.State) (r : Reply String) (later : Draw × p.State)
      → IsFilled s
      → Keeps p s s'
      → ((v : String) → r ≡ value v → stored p encode k s ≡ some v)
      → (r ≡ absent → stored p encode k s ≡ none)
      → Fresh s later
      → Fresh s (settle k (r, s') later)
  unfolding settle
  settle-Fresh k s s' (value v) later filled same has hasnt next = elim (Bool-cases (str_eq v "")) [
    | inl blank ↦ absurd (filled (encode k) (cc (has v refl, (eq_iff v "").0 blank)))
    | inr full ↦ rw full next
  ]
  settle-Fresh k s s' absent later filled same has hasnt next =
      (same, λ j h. let e : k ≡ j = cc in rw (← e) (hasnt refl))
  settle-Fresh k s s' fault later filled same has hasnt next = (same, λ j h. cc)

  choose_key-Fresh :
      (draws : List (Option String)) (s : p.State)
      → IsFilled s
      → Fresh s (choose_key p encode draws s)
  unfolding choose_key
  choose_key-Fresh [] s filled = (λ k. refl, λ k h. cc)
  choose_key-Fresh (none ∷ draws) s filled = (λ k. refl, λ k h. cc)
  choose_key-Fresh (some k ∷ draws) s filled =
      let s₁ = (get_haste p encode k s).1 in
      let kept : Keeps p s s₁ = λ j. unfold get_haste in p.update-row (encode k) j s in
      let (later, new) = choose_key-Fresh draws s₁ (λ j h. filled j (sym (kept j) ∙ h)) in
      settle-Fresh k s s₁ (get_haste p encode k s).0 (choose_key p encode draws s₁) filled kept
        (λ v h. unfold get_haste in p.update-value (encode k) v s h)
        (λ h. unfold get_haste in p.update-absent (encode k) s h)
        (λ j. later j ∙ kept j, λ j h. sym (kept (encode j)) ∙ new j h)

  -- A new document was added under a key that had none, and the key was sent with the status 200.
  abbrev pub Adds : String → p.State → Writer Answer → Writer Answer × p.State → Type 0
  Adds text s w (w', s') =
      (key : String) × (stored p encode key s ≡ none)
      × (stored p encode key s' ≡ some text)
      × ((j : String) → encode key ≢ j → p.row j s' ≡ p.row j s)
      × (w'.status ≡ some 200)
      × (w'.chunks ≡ w.chunks ++ json (created key) ∷ [])

  -- Nothing was added, and the answer is an error page.
  abbrev pub Rejects : p.State → Writer Answer × p.State → Type 0
  Rejects s (w', s') =
      Keeps p s s'
      × ((w'.status ≡ some 400)
          ⊎ ((w'.status ≡ some 411) ⊎ ((w'.status ≡ some 415) ⊎ (w'.status ≡ some 500))))

  abbrev pub Ends : String → p.State → Writer Answer → Writer Answer × p.State → Type 0
  Ends text s w r = Adds text s w r ⊎ Rejects s r

  confirm-Ends :
      (key text : String) (s s₂ : p.State) (done : Bool) (w : Writer Answer)
      → w.status ≡ none
      → stored p encode key s ≡ none
      → (done ≡ true → stored p encode key s₂ ≡ some text)
      → ((j : String) → encode key ≢ j → p.row j s₂ ≡ p.row j s)
      → (done ≡ false → Keeps p s s₂)
      → Ends text s w (confirm p encode key (done, s₂) w)
  unfolding confirm
  confirm-Ends key text s s₂ true w blank new added others kept =
      inl (key, new, added refl, others, unfold send_key in rw blank refl, unfold send_key in refl)
  confirm-Ends key text s s₂ false w blank new added others kept =
      inr (kept refl, inr (inr (inr (unfold http_error in rw blank refl))))

  store-Ends :
      (text source : String) (s s₁ : p.State) (d : Draw) (w : Writer Answer)
      (r : Writer Answer × p.State)
      → w.status ≡ none
      → Fresh s (d, s₁)
      → store p encode text source (d, s₁) w ≡ some r
      → Ends text s w r
  unfolding store
  store-Ends text source s s₁ looping w r blank (same, new) h = cc
  store-Ends text source s s₁ failed w r blank (same, new) h =
      rw (← some_inj h) (inr (same, inr (inr (inr (unfold http_error in rw blank refl)))))
  store-Ends text source s s₁ (chosen key) w r blank (same, new) h =
      let free : p.row (encode key) s₁ ≡ none = same (encode key) ∙ new key refl in
      rw (← some_inj h) (
        unfold new_haste in
        confirm-Ends key text s (p.insert_row (encode key) text source s₁).1
          (p.insert_row (encode key) text source s₁).0 w blank (new key refl)
          (λ done. p.insert_row-done (encode key) text source s₁ done free)
          (λ j apart. p.insert_row-other (encode key) j text source s₁ apart ∙ same j)
          (λ refused j. p.insert_row-failed (encode key) j text source s₁ refused ∙ same j))

  accept-Ends :
      (media : Option String) (text source : String) (draws : List (Option String)) (s : p.State)
      (w : Writer Answer) (r : Writer Answer × p.State)
      → w.status ≡ none
      → IsFilled s
      → accept p encode media text source draws s w ≡ some r
      → Rejects s r ⊎ ((str_eq text "" ≡ false) × Ends text s w r)
  unfolding accept
  accept-Ends none text source draws s w r blank filled h =
      rw (← some_inj h) (inl (λ j. refl, inr (inr (inl (unfold http_error in rw blank refl)))))
  accept-Ends (some media) text source draws s w r blank filled h =
      elim (Bool-cases (is_allowed media)) [
        | inr refused ↦
            rw (← some_inj (rw (refused, accept) at h))
              (inl (λ j. refl, inr (inr (inl (unfold http_error in rw blank refl)))))
        | inl allowed ↦ elim (Bool-cases (str_eq text "")) [
          | inl empty ↦
              rw (← some_inj (rw (allowed, empty, accept) at h))
                (inl (λ j. refl, inr (inl (unfold http_error in rw blank refl))))
          | inr full ↦ inr (
            full,
            store-Ends text source s (choose_key p encode draws s).1 (choose_key p encode draws s).0
                w r blank (choose_key-Fresh draws s filled) (rw (allowed, full, accept) at h),
          )
        ]
      ]

  pub read_body-Ends :
      (body media : Option String) (source : String) (draws : List (Option String)) (s : p.State)
      (w : Writer Answer) (r : Writer Answer × p.State)
      → w.status ≡ none
      → IsFilled s
      → read_body p encode body media source draws s w ≡ some r
      → ((text : String) × (body ≡ some text) × (str_eq text "" ≡ false) × Adds text s w r)
        ⊎ Rejects s r
  unfolding read_body
  read_body-Ends none media source draws s w r blank filled h =
      rw (← some_inj h) (inr (λ j. refl, inr (inr (inr (unfold http_error in rw blank refl)))))
  read_body-Ends (some text) media source draws s w r blank filled h =
      elim (accept-Ends media text source draws s w r blank filled h) [
        | inl no' ↦ inr no'
        | inr (full, inl yes') ↦ inl (text, refl, full, yes')
        | inr (full, inr no') ↦ inr no'
      ]
