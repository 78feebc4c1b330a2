-- ===== src/Benchmarks/Intervals.antt =====
-- The voice activity measure of src/pitchbot/benchmarks/metrics.py: `_merge`, `_duration` and
-- `_overlap` of `vad_precision_recall_f1`. Times are numbers of one unit, in place of floats.
pub mod Laws
mod Tests
use pitch_bot.Prelude.{
  ℕ, ◌+◌, ◌-◌, Bool, true, false, not, ◌&&◌, min, max, List, [], ◌∷◌, leb, ltb, if◌then◌else◌,
}

pub record Interval : Type 0 where
  pub start_seconds : ℕ
  pub end_seconds : ℕ

-- the check of the constructor
abbrev pub interval_ok : Interval → Bool
interval_ok i = ltb i.start_seconds i.end_seconds

-- sorted(intervals, key=lambda value: value.start_seconds)
unfoldable pub insert_by_start : Interval → List Interval → List Interval
insert_by_start i [] = i ∷ []
insert_by_start i (j ∷ js) =
    let further = j ∷ insert_by_start i js in
    if leb i.start_seconds j.start_seconds then i ∷ j ∷ js else further

unfoldable pub sort_by_start : List Interval → List Interval
sort_by_start [] = []
sort_by_start (i ∷ is) = insert_by_start i (sort_by_start is)

-- the loop of `_merge`, where `previous` is `merged[-1]`
unfoldable pub merge_after : Interval → List Interval → List Interval
merge_after previous [] = previous ∷ []
merge_after previous (i ∷ is) =
    let apart = previous ∷ merge_after i is in
    let joined =
      merge_after
        (record {
          start_seconds = previous.start_seconds;
          end_seconds = max previous.end_seconds i.end_seconds;
        })
        is in
    if ltb previous.end_seconds i.start_seconds then apart else joined

unfoldable pub merge_sorted : List Interval → List Interval
merge_sorted [] = []
merge_sorted (i ∷ is) = merge_after i is

unfoldable pub merge : List Interval → List Interval
merge intervals = merge_sorted (sort_by_start intervals)

unfoldable pub duration : List Interval → ℕ
duration [] = 0
duration (i ∷ is) = (i.end_seconds - i.start_seconds) + duration is

-- max(0.0, min(ends) - max(starts))
abbrev pub common : Interval → Interval → ℕ
common l r = min l.end_seconds r.end_seconds - max l.start_seconds r.start_seconds

-- the loop of `_overlap`, by what is left of both lists
unfoldable pub overlap : List Interval → List Interval → ℕ
overlap [] right = 0
overlap (l ∷ left) [] = 0
overlap (l ∷ left) (r ∷ right) =
    let advance_left = common l r + overlap left (r ∷ right) in
    let advance_right = common l r + overlap (l ∷ left) right in
    if leb l.end_seconds r.end_seconds then advance_left else advance_right
