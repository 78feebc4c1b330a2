-- ===== src/Observability/Registry/Series.antt =====
-- The series of a registry, and what one call may do to them.
use pitch_bot.Prelude.{
  is_some, ℕ, ◌+◌, ◌≤◌, ◌≡◌, refl, sym, arith, Bool, true, false, Option, none, some, List, [], ◌∷◌,
  length, Eq, get, put, ◌||◌, get-put, if◌then◌else◌,
}
use pitch_bot.Observability.Histogram.{Histogram}
use pitch_bot.Observability.Registry.{MetricsRegistry, is_full, Call, counted, timed}

abbrev pub shown : Option ℕ → ℕ
shown none = 0
shown (some v) = v

pub zero_plus : (n : ℕ) → 0 + n ≡ n
zero_plus n = omega arith

module _ {ℓ} {K : Type ℓ} ⦃e : Eq K⦄ where
  -- the sum of the amounts counted for a key
  unfoldable pub total_of : K → List (Call K) → ℕ
  total_of key [] = 0
  total_of key (counted k amount ∷ cs) = (if e.beq k key then amount else 0) + total_of key cs
  total_of key (timed k sample ∷ cs) = total_of key cs

  -- the series of the call is in the registry
  abbrev pub is_registered : MetricsRegistry K → Call K → Bool
  is_registered r (counted k amount) = is_some (get k r.counters)
  is_registered r (timed k sample) = is_some (get k r.histograms)

  unfoldable pub refused_of : MetricsRegistry K → List (Call K) → ℕ
  refused_of r [] = 0
  refused_of r (c ∷ cs) = (if is_registered r c then 0 else 1) + refused_of r cs

  abbrev pub series : MetricsRegistry K → ℕ
  series r = length r.counters + length r.histograms

  abbrev pub amount_of : K → Call K → ℕ
  amount_of key (counted k amount) = if e.beq k key then amount else 0
  amount_of key (timed k sample) = 0

  -- what one call does
  pub record StepOk (r : MetricsRegistry K) (c : Call K) (r' : MetricsRegistry K) : Type ℓ where
    pub same_max : r'.max_series ≡ r.max_series
    pub within : series r ≤ r.max_series → series r' ≤ r.max_series
    pub keeps : (d : Call K) → is_registered r d ≡ true → is_registered r' d ≡ true
    pub full_stays : is_full r ≡ true → is_full r' ≡ true
    pub full_adds : is_full r ≡ true → (d : Call K) → is_registered r' d ≡ is_registered r d
    pub refuses : is_registered r' c ≡ false → is_full r ≡ true
    pub drops : r'.dropped_series ≡ r.dropped_series + (if is_registered r' c then 0 else 1)
    pub shows :
        (key : K)
        → shown (get key r'.counters)
          ≡ shown (get key r.counters) + (if is_registered r' c then amount_of key c else 0)

  abbrev pub is_counted : K → Call K → Bool
  is_counted k (counted j amount) = e.beq k j
  is_counted k (timed j sample) = false

  pub registered_put :
      (k : K) (v : ℕ) (r : MetricsRegistry K) (d : Call K)
      → is_registered (record r { counters = put k v r.counters }) d
        ≡ (is_counted k d || is_registered r d)
  registered_put k v r (counted j amount) = ground (arith, get-put k j v r.counters)
  registered_put k v r (timed j sample) = refl

  pub registered_dropped :
      (n : ℕ) (r : MetricsRegistry K) (d : Call K)
      → is_registered (record r { dropped_series = n }) d ≡ is_registered r d
  registered_dropped n r (counted j amount) = refl
  registered_dropped n r (timed j sample) = refl

  pub counted_registered :
      (k : K) (v : ℕ) (r : MetricsRegistry K) (d : Call K)
      → get k r.counters ≡ some v
      → is_counted k d ≡ true
      → is_registered r d ≡ true
  counted_registered k v r (counted j amount) q is = rw (sym ((e.beq_iff k j).0 is), q) refl
  counted_registered k v r (timed j sample) q is = ground (arith, is)

  abbrev pub is_timed : K → Call K → Bool
  is_timed k (counted j amount) = false
  is_timed k (timed j sample) = e.beq k j

  pub registered_put_timed :
      (k : K) (h : Histogram) (r : MetricsRegistry K) (d : Call K)
      → is_registered (record r { histograms = put k h r.histograms }) d
        ≡ (is_timed k d || is_registered r d)
  registered_put_timed k h r (counted j amount) = refl
  registered_put_timed k h r (timed j sample) = ground (arith, get-put k j h r.histograms)

  pub timed_registered :
      (k : K) (h : Histogram) (r : MetricsRegistry K) (d : Call K)
      → get k r.histograms ≡ some h
      → is_timed k d ≡ true
      → is_registered r d ≡ true
  timed_registered k h r (counted j amount) q is = ground (arith, is)
  timed_registered k h r (timed j sample) q is = rw (sym ((e.beq_iff k j).0 is), q) refl
