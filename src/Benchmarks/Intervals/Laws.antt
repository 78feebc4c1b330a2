-- ===== src/Benchmarks/Intervals/Laws.antt =====
-- What the merged intervals cover, and that the two pointers meet every overlap.
use pitch_bot.Prelude.{
  ℕ, ◌+◌, ◌≤◌, ◌<◌, ◌≡◌, refl, ap, ◌∙◌, arith, Bool, true, false, ◌&&◌, ◌||◌, max, List, [], ◌∷◌,
  All, any, leb, ltb, Bool-cases, inl, inr,
}
use pitch_bot.Benchmarks.Intervals.{
  Interval, interval_ok, insert_by_start, sort_by_start, merge_after, merge_sorted, merge, common,
  overlap,
}

abbrev pub within : ℕ → Interval → Bool
within t i = leb i.start_seconds t && ltb t i.end_seconds

-- the time lies in one of the intervals
abbrev pub covers : ℕ → List Interval → Bool
covers t is = any (within t) is

abbrev pub Valid : List Interval → Type 0
Valid is = All (λ i. interval_ok i ≡ true) is

-- Valid intervals that begin after `t` and leave gaps.
abbrev pub Apart : ℕ → List Interval → Type 0
Apart t [] = Unit
Apart t (i ∷ is) =
    (t < i.start_seconds) × (i.start_seconds < i.end_seconds) × Apart i.end_seconds is

abbrev pub Spread : List Interval → Type 0
Spread [] = Unit
Spread (i ∷ is) = (i.start_seconds < i.end_seconds) × Apart i.end_seconds is

-- in the order of their starts, from `t` on
abbrev From : ℕ → List Interval → Type 0
From t [] = Unit
From t (i ∷ is) =
    (t ≤ i.start_seconds) × (i.start_seconds < i.end_seconds) × From i.start_seconds is

covers-insert_by_start :
    (t : ℕ) (i : Interval) (is : List Interval)
    → covers t (insert_by_start i is) ≡ (within t i || covers t is)
unfolding insert_by_start
covers-insert_by_start t i [] = refl
covers-insert_by_start t i (j ∷ js) = ground (arith, covers-insert_by_start t i js)

covers-sort_by_start : (t : ℕ) (is : List Interval) → covers t (sort_by_start is) ≡ covers t is
unfolding sort_by_start
covers-sort_by_start t [] = refl
covers-sort_by_start t (i ∷ is) =
    ground (arith, covers-insert_by_start t i (sort_by_start is), covers-sort_by_start t is)

From-insert_by_start :
    (t : ℕ) (i : Interval) (is : List Interval)
    → t ≤ i.start_seconds
    → interval_ok i ≡ true
    → From t is
    → From t (insert_by_start i is)
unfolding insert_by_start
From-insert_by_start t i [] h o f = ground arith
From-insert_by_start t i (j ∷ js) h o f = ground (
  arith,
  λ (le : j.start_seconds ≤ i.start_seconds). From-insert_by_start j.start_seconds i js le o f.2,
)

From-below : (t u : ℕ) (is : List Interval) → t ≤ u → From u is → From t is
From-below t u [] h f = tt
From-below t u (i ∷ is) h f = (omega arith, f.1, f.2)

From-sort_by_start : (is : List Interval) → Valid is → From 0 (sort_by_start is)
unfolding sort_by_start
From-sort_by_start [] v = tt
From-sort_by_start (i ∷ is) v =
    From-insert_by_start 0 i (sort_by_start is) (omega arith) v.0 (From-sort_by_start is v.1)

abbrev joined : Interval → Interval → Interval
joined p i = record {
  start_seconds = p.start_seconds;
  end_seconds = max p.end_seconds i.end_seconds;
}

within-joined :
    (t : ℕ) (p i : Interval)
    → p.start_seconds ≤ i.start_seconds
    → i.start_seconds < i.end_seconds
    → ltb p.end_seconds i.start_seconds ≡ false
    → within t (joined p i) ≡ (within t p || within t i)
within-joined t p i h o near = ground arith

or_assoc_lem : (a b c : Bool) → ((a || b) || c) ≡ (a || (b || c))
or_assoc_lem a b c = ground arith

covers-merge_after :
    (t : ℕ) (p : Interval) (is : List Interval)
    → p.start_seconds < p.end_seconds
    → From p.start_seconds is
    → covers t (merge_after p is) ≡ (within t p || covers t is)
unfolding merge_after
covers-merge_after t p [] h f = refl
covers-merge_after t p (i ∷ is) h f = elim (Bool-cases (ltb p.end_seconds i.start_seconds)) [
  | inl far ↦ rw (far) (ap (λ b. within t p || b) (covers-merge_after t i is f.1 f.2))
  | inr near ↦ rw (near) (
      covers-merge_after t (joined p i) is (ground arith)
        (From-below p.start_seconds i.start_seconds is f.0 f.2)
      ∙ (ap (λ b. b || covers t is) (within-joined t p i f.0 f.1 near)
          ∙ or_assoc_lem (within t p) (within t i) (covers t is)))
]

Apart-merge_after :
    (t : ℕ) (p : Interval) (is : List Interval)
    → t < p.start_seconds
    → p.start_seconds < p.end_seconds
    → From p.start_seconds is
    → Apart t (merge_after p is)
unfolding merge_after
Apart-merge_after t p [] b h f = (b, h, tt)
Apart-merge_after t p (i ∷ is) b h f = elim (Bool-cases (ltb p.end_seconds i.start_seconds)) [
  | inl far ↦ rw (far) (b, h, Apart-merge_after p.end_seconds i is (ground arith) f.1 f.2)
  | inr near ↦ rw (near) (
      Apart-merge_after t (joined p i) is b (ground arith)
        (From-below p.start_seconds i.start_seconds is f.0 f.2))
]

Spread-merge_after :
    (p : Interval) (is : List Interval)
    → p.start_seconds < p.end_seconds
    → From p.start_seconds is
    → Spread (merge_after p is)
unfolding merge_after
Spread-merge_after p [] h f = (h, tt)
Spread-merge_after p (i ∷ is) h f = elim (Bool-cases (ltb p.end_seconds i.start_seconds)) [
  | inl far ↦ rw (far) (h, Apart-merge_after p.end_seconds i is (ground arith) f.1 f.2)
  | inr near ↦ rw (near) (
      Spread-merge_after (joined p i) is (ground arith)
        (From-below p.start_seconds i.start_seconds is f.0 f.2))
]

merge_sorted_lem :
    (is : List Interval)
    → From 0 is
    → Spread (merge_sorted is) × ((t : ℕ) → covers t (merge_sorted is) ≡ covers t is)
unfolding merge_sorted
merge_sorted_lem [] f = (tt, λ t. refl)
merge_sorted_lem (i ∷ is) f =
    (Spread-merge_after i is f.1 f.2, λ t. covers-merge_after t i is f.1 f.2)

-- Merging valid intervals, in any order, gives valid intervals in ascending order with gaps between
-- them, which cover the same times.
pub merge-covers :
    (intervals : List Interval)
    → Valid intervals
    → Spread (merge intervals) × ((t : ℕ) → covers t (merge intervals) ≡ covers t intervals)
unfolding merge
merge-covers intervals v =
    let m = merge_sorted_lem (sort_by_start intervals) (From-sort_by_start intervals v) in
    (m.0, λ t. m.1 t ∙ covers-sort_by_start t intervals)

-- What one interval has in common with each of a list, and what two lists have in common by pairs.
unfoldable pub common_with : Interval → List Interval → ℕ
common_with l [] = 0
common_with l (r ∷ rs) = common l r + common_with l rs

unfoldable pub common_by_pairs : List Interval → List Interval → ℕ
common_by_pairs [] rs = 0
common_by_pairs (l ∷ ls) rs = common_with l rs + common_by_pairs ls rs

common_with-Apart :
    (l : Interval) (t : ℕ) (rs : List Interval)
    → Apart t rs
    → l.end_seconds ≤ t
    → common_with l rs ≡ 0
unfolding common_with
common_with-Apart l t [] a h = refl
common_with-Apart l t (r ∷ rs) a h =
    let zero_here : common l r ≡ 0 = omega arith in
    omega (arith, zero_here, common_with-Apart l r.end_seconds rs a.2 (omega arith))

common_by_pairs-nil : (ls : List Interval) → common_by_pairs ls [] ≡ 0
unfolding common_by_pairs common_with
common_by_pairs-nil [] = refl
common_by_pairs-nil (l ∷ ls) = omega (arith, common_by_pairs-nil ls)

-- a right interval that ends before all left ones is in none of them
drop_right :
    (r : Interval) (t : ℕ) (ls rs : List Interval)
    → Apart t ls
    → r.end_seconds ≤ t
    → common_by_pairs ls (r ∷ rs) ≡ common_by_pairs ls rs
unfolding common_by_pairs common_with
drop_right r t [] rs a h = refl
drop_right r t (l ∷ ls) rs a h =
    let zero_here : common l r ≡ 0 = omega arith in
    omega (arith, zero_here, drop_right r l.end_seconds ls rs a.2 (omega arith))

Spread-tail : (i : Interval) (is : List Interval) → Spread (i ∷ is) → Spread is
Spread-tail i [] s = tt
Spread-tail i (j ∷ is) s = (s.1.1, s.1.2)

-- On lists of valid intervals in ascending order with gaps, the walk with two pointers adds up what
-- every interval of one list has in common with every interval of the other.
pub overlap_exact :
    (left right : List Interval)
    → Spread left
    → Spread right
    → overlap left right ≡ common_by_pairs left right
unfolding overlap common_by_pairs common_with
overlap_exact [] right s u = refl
overlap_exact (l ∷ left) [] s u = ground (arith, common_by_pairs-nil left)
overlap_exact (l ∷ left) (r ∷ right) s u = elim (Bool-cases (leb l.end_seconds r.end_seconds)) [
  | inl first ↦ rw (first) (
      omega (
        arith,
        overlap_exact left (r ∷ right) (Spread-tail l left s) u,
        common_with-Apart l r.end_seconds right u.1 (ground arith),
      ))
  | inr second ↦ rw (second) (
      omega (
        arith,
        overlap_exact (l ∷ left) right s (Spread-tail r right u),
        drop_right r l.end_seconds left right s.1 (ground arith),
      ))
]
