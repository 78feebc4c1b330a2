-- ===== src/Observability/Histogram.antt =====
-- `Histogram` of src/pitchbot/observability/metrics.py. Values and edges are numbers of one unit in
-- place of floats, a value that is not a number is `none`, and a fraction is a pair of numbers. The
-- lock, which makes an observation one step, is left out.
pub mod Laws
mod Tests
use pitch_bot.Prelude.{
  ℕ, ◌+◌, ◌*◌, Bool, true, false, not, ◌||◌, Option, none, some, List, [], ◌∷◌, map, leb, ltb, ◌==◌,
  if◌then◌else◌,
}

pub record Histogram : Type 0 where
  pub buckets : List ℕ
  pub counts : List ℕ
  pub sum : ℕ
  pub count : ℕ

-- sorted(buckets)
unfoldable pub insert_edge : ℕ → List ℕ → List ℕ
insert_edge x [] = x ∷ []
insert_edge x (y ∷ ys) =
    let further = y ∷ insert_edge x ys in if leb x y then x ∷ y ∷ ys else further

unfoldable pub sort_edges : List ℕ → List ℕ
sort_edges [] = []
sort_edges (x ∷ xs) = insert_edge x (sort_edges xs)

-- the constructor, which refuses an empty list
unfoldable pub new_histogram : List ℕ → Option Histogram
new_histogram [] = none
new_histogram (x ∷ xs) =
    let ordered = sort_edges (x ∷ xs) in
    some (record { buckets = ordered; counts = map (λ edge. 0) ordered; sum = 0; count = 0 })

-- the loop of `observe`
unfoldable pub add_to_counts : ℕ → List ℕ → List ℕ → List ℕ
add_to_counts value (edge ∷ edges) (c ∷ counts) =
    (if leb value edge then c + 1 else c) ∷ add_to_counts value edges counts
add_to_counts value edges counts = counts

unfoldable pub observe_value : Option ℕ → Histogram → Histogram
observe_value none h = h
observe_value (some value) h = record h {
  sum = h.sum + value;
  count = h.count + 1;
  counts = add_to_counts value h.buckets h.counts;
}

pub data Quantile : Type 0 where
  value_error not_a_number infinity : Quantile
  edge_of : ℕ → Quantile

-- counts[index] >= num / den * count
abbrev pub at_target : ℕ → ℕ → ℕ → ℕ → Bool
at_target num den count c = leb (num * count) (den * c)

-- the loop of `quantile`
unfoldable pub first_edge : (ℕ → Bool) → List ℕ → List ℕ → Quantile
first_edge test (edge ∷ edges) (c ∷ counts) =
    let rest = first_edge test edges counts in if test c then edge_of edge else rest
first_edge test edges counts = infinity

-- the quantile of the fraction num / den
unfoldable pub quantile : ℕ → ℕ → Histogram → Quantile
quantile num den h =
    if num == 0 || ltb den num
    then value_error
    else if h.count == 0
    then not_a_number
    else first_edge (at_target num den h.count) h.buckets h.counts
