-- ===== src/Redirects/Get/Laws.antt =====
-- Where a redirect leads, whether it comes from the cache or from the table.
use potat_api.Base.{
  ◌≡◌, sym, ◌∙◌, ◌≢◌, ◌⊎◌, inl, inr, String, none, some, [], fault, str_eq, eq_iff, lookup,
  Bool-cases, All,
}
use potat_api.Services.{Cache}
use potat_api.Redirects.{Table, get_redirect_by_key}
use potat_api.Redirects.Clean.{clean}
use potat_api.Redirects.Get.{Outcome, set_redis}

module _ (c : Cache) (t : Table) where
  -- What is cached under the key, if anything, is the cleaned URL of the key's row.
  abbrev pub IsCoherent : String → c.State → t.State → Type 0
  IsCoherent k s rows =
      (v : String)
      → c.contents k s ≡ some v
      → (u : String) × (t.row k rows ≡ some u) × (v ≡ clean u)

  -- The outcome is a 303 to the cleaned URL of the key's row, what it leaves to cache is that too,
  -- or it is a 404 page for the empty key or one without a row, or a 500 page where the database
  -- fails, and nothing is cached.
  abbrev pub Leads : {J : Type 0} → String → t.State → Outcome J → Type 0
  Leads key rows o =
      ((u : String) × (t.row key rows ≡ some u)
        × (lookup "Location" o.writer.headers ≡ some (clean u))
        × (o.writer.status ≡ some 303)
        × All (λ e. (e.0 ≡ key) × (e.1 ≡ clean u)) o.spawned)
      ⊎ ((((o.writer.status ≡ some 404) × ((key ≡ "") ⊎ (t.row key rows ≡ none)))
            ⊎ ((o.writer.status ≡ some 500) × (get_redirect_by_key t key rows ≡ fault)))
          × (o.spawned ≡ []))

  -- Caching the cleaned URL of a key's row leaves what is cached under any key the cleaned URL of that
  -- key's row, if it was before, and whether SETEX works or not.
  pub set_redis-IsCoherent :
      (key j url u : String) (s : c.State) (rows : t.State)
      → IsCoherent j s rows
      → t.row key rows ≡ some u
      → url ≡ clean u
      → IsCoherent j (set_redis c key url s) rows
  unfolding set_redis
  set_redis-IsCoherent key j url u s rows coherent there same v h =
      elim (Bool-cases (str_eq key j)) [
        | inr apart ↦
            let ne : key ≢ j = λ e. cc (apart, (eq_iff key j).1 e) in
            coherent v (sym (c.set_ex-other key j url 3600 s ne) ∙ h)
        | inl here ↦
            let e = (eq_iff key j).0 here in
            elim (c.set_ex-stores key url 3600 s) [
              | inl new ↦ let stored : url ≡ v = cc in (u, rw (← e) there, sym stored ∙ same)
              | inr old ↦ coherent v (rw (← e) (sym old ∙ rw (← e) at h))
            ]
      ]
