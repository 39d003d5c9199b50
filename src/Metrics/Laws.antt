-- ===== src/Metrics/Laws.antt =====
-- What the metrics show after any use of them.
use potat_api.Base.{
  ℕ, suc, ◌+◌, ◌≡◌, refl, String, Bool, false, Bool-cases, inl, inr, ◌∙◌, some, List, [], ◌∷◌,
  if◌then◌else◌, arith,
}
use potat_api.Metrics.{
  Metrics, same_labels, inc, observe_inbound_requests, gauge_socket_connections,
}

-- A use of the metrics, by the logging middleware or by the hub.
pub data Use : Type 0 where
  request : String → String → String → String → String → String → Use
  sockets : ℕ → Use

abbrev pub use_one : Use → Metrics → Metrics
use_one (request host endpoint ip method status cachehit) m =
    observe_inbound_requests host endpoint ip method status cachehit m
use_one (sockets n) m = gauge_socket_connections n m

abbrev pub use_all : List Use → Metrics → Metrics
use_all [] m = m
use_all (u ∷ us) m = use_all us (use_one u m)

-- How many of the uses are requests of a series, and the last number of sockets.
abbrev pub one_of : List String → Use → Bool
one_of series (request host endpoint ip method status cachehit) =
    same_labels (host ∷ endpoint ∷ ip ∷ method ∷ status ∷ cachehit ∷ []) series
one_of series (sockets n) = false

abbrev pub times : List String → List Use → ℕ
times series [] = 0
times series (u ∷ us) = let rest = times series us in if one_of series u then suc rest else rest

abbrev pub last_sockets : ℕ → List Use → ℕ
last_sockets n [] = n
last_sockets n (request host endpoint ip method status cachehit ∷ us) = last_sockets n us
last_sockets n (sockets m ∷ us) = last_sockets m us

abbrev pub Shows : (List String → ℕ) → ℕ → Metrics → Type 0
Shows counts n m =
    (counter : List String → ℕ) × (m.http_request_counter ≡ some counter)
    × ((series : List String) → counter series ≡ counts series)
    × (m.socket_gauge ≡ some n)

counted :
    (labels : List String) (counter counts : List String → ℕ) (series : List String) (us : List Use)
    → ((series : List String) → counter series ≡ counts series)
    → inc labels counter series + times series us
      ≡ counts series
        + (if same_labels labels series then suc (times series us) else times series us)
counted labels counter counts series us right =
    let e = right series in
    elim (Bool-cases (same_labels labels series)) [
      | inl same ↦ rw same (omega arith)
      | inr other ↦ rw other (omega arith)
    ]

-- After any uses, each series has grown by the requests with its labels, and the gauge shows the
-- last number of sockets that was set.
pub use_all-Shows :
    (us : List Use) (m : Metrics) (counts : List String → ℕ) (n : ℕ)
    → Shows counts n m
    → Shows (λ series. counts series + times series us) (last_sockets n us) (use_all us m)
use_all-Shows [] m counts n (counter, here, right, gauge) =
    (counter, here, λ series. let e = right series in omega arith, gauge)
use_all-Shows (sockets k ∷ us) m counts n (counter, here, right, gauge) =
    use_all-Shows us (gauge_socket_connections k m) counts k
      (unfold gauge_socket_connections in (counter, here, right, rw gauge refl))
use_all-Shows (request host endpoint ip method status cachehit ∷ us) m counts n
      (counter, here, right, gauge) =
    let labels = host ∷ endpoint ∷ ip ∷ method ∷ status ∷ cachehit ∷ [] in
    let (after, there, right', gauge') =
      use_all-Shows us (observe_inbound_requests host endpoint ip method status cachehit m)
        (inc labels counter) n
        (unfold observe_inbound_requests in
          (inc labels counter, rw here refl, λ series. refl, gauge)) in
    (after, there, λ series. right' series ∙ counted labels counter counts series us right, gauge')
