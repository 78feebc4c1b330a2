-- ===== src/Observability/Histogram/Tests.antt =====
-- Two values and one that is not a number, for metrics.py.
use pitch_bot.Prelude.{ℕ, ◌≡◌, refl, Option, none, some, List, [], ◌∷◌}
use pitch_bot.Observability.Histogram.{
  Histogram, observe_value, add_to_counts, edge_of, infinity, first_edge, quantile,
}
use pitch_bot.Observability.Histogram.Laws.{observe_all}

abbrev turns : Histogram
turns = record { buckets = 100 ∷ 500 ∷ []; counts = 0 ∷ 0 ∷ []; sum = 0; count = 0 }

abbrev seen : List (Option ℕ)
seen = some 90 ∷ none ∷ some 700 ∷ []

median_is_edge : quantile 1 2 (observe_all seen turns) ≡ edge_of 100
unfolding quantile first_edge observe_all observe_value add_to_counts
median_is_edge = refl

slowest_is_above : quantile 1 1 (observe_all seen turns) ≡ infinity
unfolding quantile first_edge observe_all observe_value add_to_counts
slowest_is_above = refl
