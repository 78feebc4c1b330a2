-- ===== src/Benchmarks/EditDistance.antt =====
-- `edit_distance` of src/pitchbot/benchmarks/metrics.py, over items with an equality: words, or
-- characters. A row is a list that the loop walks with the hypothesis: `previous[j - 1]` and
-- `previous[j]` are its first two entries, and `current[-1]` is the entry that was written last.
pub mod Laws
mod Tests
use pitch_bot.Prelude.{ℕ, zero, suc, ◌+◌, min, List, [], ◌∷◌, length, Eq, if◌then◌else◌}

-- list(range(start, start + len(items) + 1))
unfoldable pub count_up {ℓ} : {A : Type ℓ} → ℕ → List A → List ℕ
count_up start [] = start ∷ []
count_up start (x ∷ xs) = start ∷ count_up (start + 1) xs

-- items[-1]; a row is never empty
unfoldable pub last : List ℕ → ℕ
last [] = 0
last (n ∷ []) = n
last (n ∷ m ∷ ns) = last (m ∷ ns)

module _ {ℓ} {A : Type ℓ} ⦃e : Eq A⦄ where
  abbrev pub differ : A → A → ℕ
  differ x y = if e.beq x y then 0 else 1

  -- the inner loop, from the entry `left` on
  unfoldable pub fill_row : A → List A → List ℕ → ℕ → List ℕ
  fill_row x (y ∷ ys) (diagonal ∷ up ∷ previous) left =
      let entry = min (min (left + 1) (up + 1)) (diagonal + differ x y) in
      left ∷ fill_row x ys (up ∷ previous) entry
  fill_row x _ _ left = left ∷ []

  -- the outer loop, whose row for the next item begins with its index
  unfoldable pub fill_rows : ℕ → List A → List A → List ℕ → List ℕ
  fill_rows index [] hypothesis previous = previous
  fill_rows index (x ∷ reference) hypothesis previous =
      fill_rows (index + 1) reference hypothesis (fill_row x hypothesis previous index)

  unfoldable pub edit_distance : List A → List A → ℕ
  edit_distance reference hypothesis =
      last (fill_rows 1 reference hypothesis (count_up 0 hypothesis))
