-- ===== src/Duels/Laws.antt =====
-- What a scan collects, and when the sweep of duels ends.
use potat_api.Base.{ℕ, zero, suc, ◌≡◌, refl, sym, String, none, some, List, [], ◌∷◌, ◌++◌, length}
use mathlib.Core.List.{append_assoc, append-nil}
use mathlib.Core.Path.{subst}
use potat_api.Duels.{Server, found, failed, scan, decrement_found, decrement_duels}

abbrev pub concat : List (List String) → List String
concat [] = []
concat (xs ∷ xss) = xs ++ concat xss

module _ (server : Server) where
  -- The pages that SCAN gives from a cursor until the next cursor is 0, and the state after them.
  pub data Walk (glob : String) (count : ℕ)
      : ℕ → server.State → List (List String) → server.State → Type 0 where
    done : {s : server.State} → Walk glob count 0 s [] s
    page :
        {c next : ℕ} {s s' s'' : server.State} {keys : List String} {rest : List (List String)}
        → server.scan (suc c) glob count s ≡ (some (keys, next), s')
        → Walk glob count next s' rest s''
        → Walk glob count (suc c) s (keys ∷ rest) s''

  scan-zero :
      (glob : String) (count : ℕ) (matches : List String) (s : server.State)
      → scan server 0 glob count 0 matches s ≡ some (found matches, s)
  unfolding scan
  scan-zero glob count matches s = refl

  scan-page :
      (fuel : ℕ) (glob : String) (count c next : ℕ) (keys matches : List String)
      (s s' : server.State)
      → server.scan (suc c) glob count s ≡ (some (keys, next), s')
      → scan server (suc fuel) glob count (suc c) matches s
        ≡ scan server fuel glob count next (matches ++ keys) s'
  unfolding scan
  scan-page fuel glob count c next keys matches s s' e =
      subst
        (λ r.
          (elim r.0 [
            | none ↦ some (failed, r.1)
            | some p ↦ scan server fuel glob count p.1 (matches ++ p.0) r.1
          ])
          ≡ scan server fuel glob count next (matches ++ keys) s')
        (sym e) refl

  -- If the pages from a cursor come to an end, Scan from there gives the keys it was begun with and
  -- those of all pages, in their order and with repetitions, and as many units of fuel as there are
  -- pages are enough. From the cursor 0 there is no page.
  pub scan-Walk :
      (glob : String) (count c : ℕ) (matches : List String) (s s' : server.State)
      (pages : List (List String))
      → Walk glob count c s pages s'
      → scan server (length pages) glob count c matches s
        ≡ some (found (matches ++ concat pages), s')
  scan-Walk glob count c matches s s' pages Walk.done =
      rw append-nil (scan-zero glob count matches s)
  scan-Walk glob count (suc c) matches s s'' (keys ∷ rest)
        (Walk.page {next = next} {s' = s'} e walk) =
      rw
        (
          scan-page (length rest) glob count c next keys matches s s' e,
          scan-Walk glob count next (matches ++ keys) s' s'' rest walk,
          append_assoc matches keys (concat rest),
        )
        refl

  -- The sweep of duels ends in its first round with the state as it was, whatever keys the server
  -- holds: the scan starts at the cursor at which it stops. One unit of fuel for the rounds is
  -- enough, and none for the scans.
  pub decrement_duels-idle :
      (rounds pages : ℕ) (s : server.State) → decrement_duels server (suc rounds) pages s ≡ some s
  unfolding decrement_duels scan decrement_found
  decrement_duels-idle rounds zero s = refl
  decrement_duels-idle rounds (suc pages) s = refl
