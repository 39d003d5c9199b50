-- ===== src/Redirects/Create/Laws.antt =====
-- What a request to create a redirect does to the table.
use potat_api.Base.{
  ◌≡◌, refl, ◌≢◌, inl, inr, String, Option, none, some, List, [], ◌∷◌, map, Reply, Reply-cases,
  value, absent, fault, Bool-cases, arith,
}
use potat_api.Http.{Writer, raw, write, http_error}
use potat_api.Redirects.{Table, redirect_exists, new_redirect}
use potat_api.Redirects.Create.{
  with_scheme, Draw, key, failed, looping, known_key, short_url, generate_unique_key, store_new,
  create_redirect,
}

known_key_value : (r : Reply String) (k : String) → known_key r ≡ some k → r ≡ value k
unfolding known_key
known_key_value (value x) k h = ground arith
known_key_value absent k h = cc
known_key_value fault k h = cc

module _ (t : Table) where
  -- The key that the loop hands back is one that the table has.
  generate_unique_key-taken :
      (draws : List (Option String)) (s : t.State) (k : String)
      → generate_unique_key t draws s ≡ key k
      → t.row k s ≢ none
  unfolding generate_unique_key redirect_exists
  generate_unique_key-taken [] s k h = cc
  generate_unique_key-taken (none ∷ draws) s k h = cc
  generate_unique_key-taken (some k' ∷ draws) s k h = elim (Reply-cases (t.select_exists k' s)) [
    | inl (b, e) ↦
        let told = (t.select_exists-value k' s b e).0 in
        ground (arith, told, generate_unique_key-taken draws s k)
    | inr (inl e) ↦ ground (arith, generate_unique_key-taken draws s k)
    | inr (inr e) ↦ ground (arith, generate_unique_key-taken draws s k)
  ]

  module _ {J : Type 0} where
    store_new-fails :
        (host url : String) (d : Draw) (s s' : t.State) (w w' : Writer J)
        → ((k : String) → d ≡ key k → t.row k s ≢ none)
        → store_new t host url d s w ≡ some (w', s')
        → ((j : String) → t.row j s' ≡ t.row j s) × (w' ≡ http_error "Internal Server Error" 500 w)
    unfolding store_new new_redirect
    store_new-fails host url failed s s' w w' taken h = (λ j. ground arith, ground arith)
    store_new-fails host url looping s s' w w' taken h = (λ j. cc, cc)
    store_new-fails host url (key k) s s' w w' taken h =
        elim (Bool-cases (t.insert_row k url s).0) [
          | inl done ↦ absurd (taken k refl (t.insert_row-done k url s done).0)
          | inr refused ↦ (λ j. ground (arith, t.insert_row-failed k j url s refused), ground arith)
        ]

    -- A request whose URL has no key yet leaves every row of the table as it was, and if it is
    -- answered at all, then with the status 500: the key that generateUniqueKey settles on is one
    -- that is taken, so the insertion after it fails.
    pub create_redirect-never_inserts :
        (host input : String) (draws : List (Option String)) (s s' : t.State) (w w' : Writer J)
        → known_key (t.select_key (with_scheme input) s) ≡ none
        → create_redirect t host (some input) draws s w ≡ some (w', s')
        → ((j : String) → t.row j s' ≡ t.row j s) × (w' ≡ http_error "Internal Server Error" 500 w)
    unfolding create_redirect
    create_redirect-never_inserts host input draws s s' w w' new h =
        store_new-fails host (with_scheme input) (generate_unique_key t draws s) s s' w w'
          (λ k e. generate_unique_key-taken draws s k e) (rw (new, create_redirect) at h)

    -- A URL that has a key gets the short URL of that key with the status 200, and the table stays.
    pub create_redirect-known :
        (host input k : String) (draws : List (Option String)) (s : t.State) (w : Writer J)
        → known_key (t.select_key (with_scheme input) s) ≡ some k
        → create_redirect t host (some input) draws s w ≡ some (write (raw (short_url host k)) w, s)
          × (t.row k s ≡ some (with_scheme input))
    unfolding create_redirect
    create_redirect-known host input k draws s w old = (
      rw (old, create_redirect),
      t.select_key-value (with_scheme input) k s
          (known_key_value (t.select_key (with_scheme input) s) k old),
    )

  -- While no drawn key is taken the loop goes on, however many keys are drawn.
  pub generate_unique_key-looping :
      (draws : List String) (s : t.State)
      → ((k : String) → t.row k s ≡ none)
      → generate_unique_key t (map some draws) s ≡ looping
  unfolding generate_unique_key redirect_exists
  generate_unique_key-looping [] s empty = refl
  generate_unique_key-looping (k ∷ draws) s empty =
      let later = generate_unique_key-looping draws s empty in
      elim (Reply-cases (t.select_exists k s)) [
        | inl (b, e) ↦
            let told = (t.select_exists-value k s b e).0 in ground (arith, told, later, empty k)
        | inr (inl e) ↦ ground (arith, later)
        | inr (inr e) ↦ ground (arith, later)
      ]
