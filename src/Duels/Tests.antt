-- ===== src/Duels/Tests.antt =====
-- A server with two pages of keys.
use potat_api.Base.{◌≡◌, refl, String, true, some, List, [], ◌∷◌, ◌++◌, length, ◌==◌, if◌then◌else◌}
use potat_api.Base.Int.{pos}
use potat_api.Duels.{Server, found, scan}
use potat_api.Duels.Laws.{Walk, page, done, concat, scan-Walk}

abbrev server : Server
server = record {
  State = List String;
  scan = λ c glob count s. (some (if c == 5 then ("a" ∷ [], 7) else ("b" ∷ [], 0)), s);
  decr = λ k s. (pos 0, s);
  del = λ k s. s;
  accepts = λ s. true;
}

abbrev two_pages : List (List String)
two_pages = ("a" ∷ []) ∷ ("b" ∷ []) ∷ []

walked : Walk server "duelUse:*" 100 5 [] two_pages []
walked = page {c = 4} {next = 7} {s' = []} refl (page {c = 6} {next = 0} {s' = []} refl done)

scan-Walk_example :
    scan server (length two_pages) "duelUse:*" 100 5 [] []
    ≡ some (found ([] ++ concat two_pages), [])
scan-Walk_example = scan-Walk server "duelUse:*" 100 5 [] [] [] two_pages walked
