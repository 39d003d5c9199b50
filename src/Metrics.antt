-- ===== src/Metrics.antt =====
-- common/utils/metrics.go. Of Prometheus a counter vector is the number of each series, by the
-- values of its labels, and a gauge is its value; a nil collector is `none`. The registry and the
-- server of ObserveMetrics are left out.
pub mod Laws
mod Tests
use potat_api.Base.{
  ℕ, suc, String, Bool, true, false, ◌&&◌, Option, none, some, List, [], ◌∷◌, str_eq, if◌then◌else◌,
}

-- `Metrics`
pub record Metrics : Type 0 where
  pub http_request_counter : Option (List String → ℕ)
  pub socket_gauge : Option ℕ

-- What ObserveMetrics starts with.
abbrev pub observe_metrics : Metrics
observe_metrics = record { http_request_counter = some (λ _. 0); socket_gauge = some 0 }

abbrev pub same_labels : List String → List String → Bool
same_labels [] [] = true
same_labels [] (y ∷ ys) = false
same_labels (x ∷ xs) [] = false
same_labels (x ∷ xs) (y ∷ ys) = let rest = same_labels xs ys in str_eq x y && rest

-- `WithLabelValues(…).Inc()`
abbrev pub inc : List String → (List String → ℕ) → List String → ℕ
inc labels counter series =
    if same_labels labels series then suc (counter series) else counter series

abbrev pub inc_if : List String → Option (List String → ℕ) → Option (List String → ℕ)
inc_if labels none = none
inc_if labels (some counter) = some (inc labels counter)

unfoldable pub observe_inbound_requests :
    String → String → String → String → String → String → Metrics → Metrics
observe_inbound_requests host endpoint ip method status cachehit m = record m {
  http_request_counter =
      inc_if (host ∷ endpoint ∷ ip ∷ method ∷ status ∷ cachehit ∷ []) m.http_request_counter;
}

abbrev pub set_if : ℕ → Option ℕ → Option ℕ
set_if value none = none
set_if value (some old) = some value

unfoldable pub gauge_socket_connections : ℕ → Metrics → Metrics
gauge_socket_connections value m = record m { socket_gauge = set_if value m.socket_gauge }
