-- ===== src/Benchmarks/EditDistance/Tests.antt =====
-- Two transcripts of three words.
use Prim.Native.String.{String}
use pitch_bot.Prelude.{ℕ, ◌≡◌, ◌≤◌, refl, List, [], ◌∷◌, string_eq}
use pitch_bot.Benchmarks.EditDistance.{count_up, last, fill_row, fill_rows, edit_distance}
use pitch_bot.Benchmarks.EditDistance.Laws.{Edits, edit_distance_least}

abbrev reference : List String
reference = "send" ∷ "the" ∷ "quote" ∷ []

abbrev hypothesis : List String
hypothesis = "send" ∷ "a" ∷ "quote" ∷ "now" ∷ []

two_edits : edit_distance reference hypothesis ≡ 2
unfolding edit_distance fill_rows fill_row count_up last
two_edits = refl

edit_distance_least_example :
    Edits reference hypothesis (edit_distance reference hypothesis)
    × ((n : ℕ) → Edits reference hypothesis n → edit_distance reference hypothesis ≤ n)
edit_distance_least_example = edit_distance_least reference hypothesis
