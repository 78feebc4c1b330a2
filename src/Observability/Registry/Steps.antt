-- ===== src/Observability/Registry/Steps.antt =====
-- Every call does what it may.
use pitch_bot.Prelude.{
  length-put_known, length-put_new, put_twice, ℕ, ◌+◌, ◌≡◌, refl, ◌∙◌, arith, true, false, Option,
  none, some, Eq, get, put, get-put, beq_refl, Bool-cases, inl, inr,
}
use pitch_bot.Observability.Histogram.{Histogram, observe_value}
use pitch_bot.Observability.Registry.{
  MetricsRegistry, is_full, counter, histogram, Call, counted, timed, run_call,
}
use pitch_bot.Observability.Registry.Series.{
  zero_plus, StepOk, registered_put, registered_dropped, counted_registered, registered_put_timed,
  timed_registered,
}

module _ {ℓ} {K : Type ℓ} ⦃e : Eq K⦄ where
  known_counter :
      (k : K) (amount v : ℕ) (r : MetricsRegistry K)
      → get k r.counters ≡ some v
      → StepOk r (counted k amount) (record r { counters = put k (v + amount) r.counters })
  known_counter k amount v r q =
      let size = length-put_known k (v + amount) r.counters (rw q refl) in
      record {
        same_max = refl;
        within = λ w. omega (arith, w, size);
        keeps = λ d known. ground (arith, registered_put k (v + amount) r d, known);
        full_stays = λ f. ground (arith, f, size);
        full_adds =
            λ f d. ground (arith, registered_put k (v + amount) r d, counted_registered k v r d q);
        refuses = λ no. ground (arith, get-put k k (v + amount) r.counters, beq_refl k, no);
        drops = ground (arith, get-put k k (v + amount) r.counters, beq_refl k);
        shows = λ key. ground (
          arith,
          get-put k k (v + amount) r.counters,
          get-put k key (v + amount) r.counters,
          beq_refl k,
          q,
          e.beq_iff k key,
        );
      }

  new_counter :
      (k : K) (amount : ℕ) (r : MetricsRegistry K)
      → get k r.counters ≡ none
      → is_full r ≡ false
      → StepOk r (counted k amount) (record r { counters = put k amount r.counters })
  new_counter k amount r q room =
      let size = length-put_new k amount r.counters q in
      record {
        same_max = refl;
        within = λ w. ground (arith, w, size, room);
        keeps = λ d known. ground (arith, registered_put k amount r d, known);
        full_stays = λ f. ground (arith, f, room);
        full_adds = λ f d. ground (arith, f, room);
        refuses = λ no. ground (arith, get-put k k amount r.counters, beq_refl k, no);
        drops = ground (arith, get-put k k amount r.counters, beq_refl k);
        shows = λ key. ground (
          arith,
          get-put k k amount r.counters,
          get-put k key amount r.counters,
          beq_refl k,
          q,
          e.beq_iff k key,
        );
      }

  refused_counter :
      (k : K) (amount : ℕ) (r : MetricsRegistry K)
      → get k r.counters ≡ none
      → is_full r ≡ true
      → StepOk r (counted k amount) (record r { dropped_series = r.dropped_series + 1 })
  refused_counter k amount r q full = record {
    same_max = refl;
    within = λ w. w;
    keeps = λ d known. registered_dropped (r.dropped_series + 1) r d ∙ known;
    full_stays = λ f. f;
    full_adds = λ f d. registered_dropped (r.dropped_series + 1) r d;
    refuses = λ no. full;
    drops = ground (arith, q);
    shows = λ key. ground (arith, q);
  }

  step_counted :
      (fresh : Histogram) (k : K) (amount : ℕ) (r : MetricsRegistry K) (o : Option ℕ)
      → get k r.counters ≡ o
      → StepOk r (counted k amount) (run_call fresh (counted k amount) r)
  unfolding run_call counter
  step_counted fresh k amount r (some v) q = rw (counter, q) (known_counter k amount v r q)
  step_counted fresh k amount r none q = elim (Bool-cases (is_full r)) [
    | inl full ↦ rw (counter, q, full) (refused_counter k amount r q full)
    | inr room ↦
        rw (counter, q, room, put_twice k 0 (0 + amount) r.counters, zero_plus amount)
          (new_counter k amount r q room)
  ]

  known_histogram :
      (k : K) (sample : Option ℕ) (h h' : Histogram) (r : MetricsRegistry K)
      → get k r.histograms ≡ some h
      → StepOk r (timed k sample) (record r { histograms = put k h' r.histograms })
  known_histogram k sample h h' r q =
      let size = length-put_known k h' r.histograms (rw q refl) in
      record {
        same_max = refl;
        within = λ w. omega (arith, w, size);
        keeps = λ d known. ground (arith, registered_put_timed k h' r d, known);
        full_stays = λ f. ground (arith, f, size);
        full_adds =
            λ f d. ground (arith, registered_put_timed k h' r d, timed_registered k h r d q);
        refuses = λ no. ground (arith, get-put k k h' r.histograms, beq_refl k, no);
        drops = ground (arith, get-put k k h' r.histograms, beq_refl k);
        shows = λ key. ground arith;
      }

  new_histogram_made :
      (k : K) (sample : Option ℕ) (h : Histogram) (r : MetricsRegistry K)
      → get k r.histograms ≡ none
      → is_full r ≡ false
      → StepOk r (timed k sample) (record r { histograms = put k h r.histograms })
  new_histogram_made k sample h r q room =
      let size = length-put_new k h r.histograms q in
      record {
        same_max = refl;
        within = λ w. ground (arith, w, size, room);
        keeps = λ d known. ground (arith, registered_put_timed k h r d, known);
        full_stays = λ f. ground (arith, f, room);
        full_adds = λ f d. ground (arith, f, room);
        refuses = λ no. ground (arith, get-put k k h r.histograms, beq_refl k, no);
        drops = ground (arith, get-put k k h r.histograms, beq_refl k);
        shows = λ key. ground arith;
      }

  refused_histogram :
      (k : K) (sample : Option ℕ) (r : MetricsRegistry K)
      → get k r.histograms ≡ none
      → is_full r ≡ true
      → StepOk r (timed k sample) (record r { dropped_series = r.dropped_series + 1 })
  refused_histogram k sample r q full = record {
    same_max = refl;
    within = λ w. w;
    keeps = λ d known. registered_dropped (r.dropped_series + 1) r d ∙ known;
    full_stays = λ f. f;
    full_adds = λ f d. registered_dropped (r.dropped_series + 1) r d;
    refuses = λ no. full;
    drops = ground (arith, q);
    shows = λ key. ground arith;
  }

  step_timed :
      (fresh : Histogram) (k : K) (sample : Option ℕ) (r : MetricsRegistry K) (o : Option Histogram)
      → get k r.histograms ≡ o
      → StepOk r (timed k sample) (run_call fresh (timed k sample) r)
  unfolding run_call histogram
  step_timed fresh k sample r (some h) q =
      rw (histogram, q) (known_histogram k sample h (observe_value sample h) r q)
  step_timed fresh k sample r none q = elim (Bool-cases (is_full r)) [
    | inl full ↦ rw (histogram, q, full) (refused_histogram k sample r q full)
    | inr room ↦
        rw (histogram, q, room, put_twice k fresh (observe_value sample fresh) r.histograms)
          (new_histogram_made k sample (observe_value sample fresh) r q room)
  ]

  pub step-StepOk :
      (fresh : Histogram) (c : Call K) (r : MetricsRegistry K) → StepOk r c (run_call fresh c r)
  step-StepOk fresh (counted k amount) r = step_counted fresh k amount r (get k r.counters) refl
  step-StepOk fresh (timed k sample) r = step_timed fresh k sample r (get k r.histograms) refl
