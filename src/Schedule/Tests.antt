-- ===== src/Schedule/Tests.antt =====
-- The loops with a parser that takes every schedule: each sweep of the package is started once.
use potat_api.Base.{◌≡◌, refl, true, [], length, str_eq, not}
use potat_api.Schedule.{start_loops, started}

all_started : length (started (start_loops true (λ schedule. true))) ≡ 13
unfolding start_loops
all_started = refl

one_refused : started (start_loops true (λ schedule. not (str_eq schedule "@weekly"))) ≡ []
unfolding start_loops
one_refused = refl
