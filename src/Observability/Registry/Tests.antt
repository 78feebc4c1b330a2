-- ===== src/Observability/Registry/Tests.antt =====
-- A registry with room for two series, for metrics.py.
use pitch_bot.Prelude.{
  String, ℕ, ◌+◌, ◌≤◌, ◌≡◌, refl, some, List, [], ◌∷◌, length, get, put, string_eq,
}
use pitch_bot.Observability.Histogram.{Histogram, observe_value}
use pitch_bot.Observability.Registry.{
  MetricsRegistry, new_registry, counter, histogram, Call, counted, timed, run_call, run_calls,
}
use pitch_bot.Observability.Registry.Series.{total_of, refused_of}
use pitch_bot.Observability.Registry.Laws.{registry_counts}

abbrev fresh : Histogram
fresh = record { buckets = 100 ∷ []; counts = 0 ∷ []; sum = 0; count = 0 }

abbrev calls : List (Call String)
calls = counted "turns" 1 ∷ timed "wait" (some 90) ∷ counted "errors" 1 ∷ counted "turns" 2 ∷ []

abbrev after : MetricsRegistry String
after = run_calls fresh calls (new_registry 2)

third_dropped : (after.dropped_series ≡ 1) × (get "turns" after.counters ≡ some 3)
unfolding run_calls run_call counter histogram observe_value get put
third_dropped = (refl, refl)

registry_counts_example :
    (length after.counters + length after.histograms ≤ 2)
    × (after.dropped_series ≡ refused_of after calls)
    × ((key : String) (value : ℕ)
        → get key after.counters ≡ some value
        → value ≡ total_of key calls)
registry_counts_example = registry_counts fresh calls 2
