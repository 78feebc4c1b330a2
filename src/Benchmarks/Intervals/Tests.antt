-- ===== src/Benchmarks/Intervals/Tests.antt =====
-- Speech in three stretches, and a detector that joined two of them.
use pitch_bot.Prelude.{ℕ, ◌≡◌, refl, List, [], ◌∷◌}
use pitch_bot.Benchmarks.Intervals.{
  Interval, insert_by_start, sort_by_start, merge_after, merge_sorted, merge, overlap,
}

abbrev interval : ℕ → ℕ → Interval
interval a b = record { start_seconds = a; end_seconds = b }

abbrev spoken : List Interval
spoken = interval 20 30 ∷ interval 0 5 ∷ interval 4 9 ∷ []

abbrev detected : List Interval
detected = interval 2 7 ∷ interval 25 40 ∷ []

merged_spoken : merge spoken ≡ interval 0 9 ∷ interval 20 30 ∷ []
unfolding merge merge_sorted merge_after sort_by_start insert_by_start
merged_spoken = refl

common_time : overlap (interval 0 9 ∷ interval 20 30 ∷ []) detected ≡ 10
unfolding overlap
common_time = refl
