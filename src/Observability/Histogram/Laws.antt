-- ===== src/Observability/Histogram/Laws.antt =====
-- A quantile against the values that were observed.
use pitch_bot.Prelude.{
  ℕ, ◌+◌, ◌*◌, ◌≤◌, ◌<◌, ◌≡◌, true, Option, none, some, List, [], ◌∷◌, map, leb, nat_eq, member,
  if◌then◌else◌,
}
use pitch_bot.Observability.Histogram.{
  Histogram, observe_value, Quantile, value_error, not_a_number, infinity, edge_of,
}

-- how many of the samples are values
unfoldable pub values : List (Option ℕ) → ℕ
values [] = 0
values (none ∷ samples) = values samples
values (some v ∷ samples) = 1 + values samples

-- how many of the samples are values up to `edge`
unfoldable pub up_to : List (Option ℕ) → ℕ → ℕ
up_to [] edge = 0
up_to (none ∷ samples) edge = up_to samples edge
up_to (some v ∷ samples) edge = (if leb v edge then 1 else 0) + up_to samples edge

unfoldable pub observe_all : List (Option ℕ) → Histogram → Histogram
observe_all [] h = h
observe_all (sample ∷ samples) h = observe_all samples (observe_value sample h)

-- Of a function that counts: the result is the least edge at which the count is the fraction of
-- `n`, or there is no such edge.
abbrev FoundIn : ℕ → ℕ → ℕ → (ℕ → ℕ) → List ℕ → Quantile → Type 0
FoundIn num den n f edges value_error = ⊥
FoundIn num den n f edges not_a_number = ⊥
FoundIn num den n f edges (edge_of e) =
    (member e edges ≡ true)
    × (num * n ≤ den * f e)
    × ((other : ℕ) → member other edges ≡ true → num * n ≤ den * f other → e ≤ other)
FoundIn num den n f edges infinity =
    (other : ℕ) → member other edges ≡ true → den * f other < num * n

-- What a quantile is to tell of the samples: that there are no values, or the least edge up to which
-- the fraction of the values lies, or that there is no such edge.
abbrev pub IsQuantile : ℕ → ℕ → List ℕ → List (Option ℕ) → Quantile → Type 0
IsQuantile num den edges samples value_error = ⊥
IsQuantile num den edges samples not_a_number = values samples ≡ 0
IsQuantile num den edges samples (edge_of e) =
    (0 < values samples) × FoundIn num den (values samples) (up_to samples) edges (edge_of e)
IsQuantile num den edges samples infinity =
    (0 < values samples) × FoundIn num den (values samples) (up_to samples) edges infinity

-- in ascending order, from `t` on
abbrev Ascending : ℕ → List ℕ → Type 0
Ascending t [] = Unit
Ascending t (x ∷ xs) = (t ≤ x) × Ascending x xs

-- the counts after the samples, from those before
abbrev Observed : List (Option ℕ) → (ℕ → ℕ) → ℕ → List ℕ → Histogram → Type 0
Observed samples f n edges h =
    (h.buckets ≡ edges)
    × (h.counts ≡ map (λ edge. f edge + up_to samples edge) edges)
    × (h.count ≡ n + values samples)
