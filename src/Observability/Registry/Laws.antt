-- ===== src/Observability/Registry/Laws.antt =====
-- What a registry with a ceiling keeps of the calls made on it.
use pitch_bot.Prelude.{
  is_some, ℕ, ◌+◌, ◌≤◌, ◌≡◌, refl, sym, ◌∙◌, arith, true, some, List, [], ◌∷◌, length, Eq, get,
  if◌then◌else◌, Bool-cases, inl, inr,
}
use pitch_bot.Observability.Histogram.{Histogram}
use pitch_bot.Observability.Registry.{
  MetricsRegistry, new_registry, is_full, Call, counted, timed, run_call, run_calls,
}
use pitch_bot.Observability.Registry.Series.{
  shown, total_of, is_registered, refused_of, series, amount_of,
}
use pitch_bot.Observability.Registry.Steps.{step-StepOk}

module _ {ℓ} {K : Type ℓ} ⦃e : Eq K⦄ where
  full_run :
      (fresh : Histogram) (cs : List (Call K)) (r : MetricsRegistry K) (d : Call K)
      → is_full r ≡ true
      → is_registered (run_calls fresh cs r) d ≡ is_registered r d
  unfolding run_calls
  full_run fresh [] r d full = refl
  full_run fresh (c ∷ cs) r d full =
      let ok = step-StepOk fresh c r in
      full_run fresh cs (run_call fresh c r) d (ok.full_stays full) ∙ ok.full_adds full d

  keeps_run :
      (fresh : Histogram) (cs : List (Call K)) (r : MetricsRegistry K) (d : Call K)
      → is_registered r d ≡ true
      → is_registered (run_calls fresh cs r) d ≡ true
  unfolding run_calls
  keeps_run fresh [] r d known = known
  keeps_run fresh (c ∷ cs) r d known =
      keeps_run fresh cs (run_call fresh c r) d ((step-StepOk fresh c r).keeps d known)

  -- A call is registered in the end exactly if it is at once.
  settled :
      (fresh : Histogram) (c : Call K) (cs : List (Call K)) (r : MetricsRegistry K)
      → is_registered (run_calls fresh (c ∷ cs) r) c ≡ is_registered (run_call fresh c r) c
  unfolding run_calls
  settled fresh c cs r =
      let ok = step-StepOk fresh c r in
      elim (Bool-cases (is_registered (run_call fresh c r) c)) [
        | inl known ↦ keeps_run fresh cs (run_call fresh c r) c known ∙ sym known
        | inr refused ↦
            full_run fresh cs (run_call fresh c r) c (ok.full_stays (ok.refuses refused))
      ]

  run_within :
      (fresh : Histogram) (cs : List (Call K)) (r : MetricsRegistry K)
      → series r ≤ r.max_series
      → series (run_calls fresh cs r) ≤ r.max_series
  unfolding run_calls
  run_within fresh [] r w = w
  run_within fresh (c ∷ cs) r w =
      let ok = step-StepOk fresh c r in
      let before = ok.within w in
      let rest = run_within fresh cs (run_call fresh c r) (omega (arith, before, ok.same_max)) in
      omega (arith, rest, ok.same_max)

  run_drops :
      (fresh : Histogram) (cs : List (Call K)) (r : MetricsRegistry K)
      → (run_calls fresh cs r).dropped_series
        ≡ r.dropped_series + refused_of (run_calls fresh cs r) cs
  unfolding run_calls refused_of
  run_drops fresh [] r = omega arith
  run_drops fresh (c ∷ cs) r =
      let ok = step-StepOk fresh c r in
      rw (settled fresh c cs r) (omega (arith, ok.drops, run_drops fresh cs (run_call fresh c r)))

  amount_total :
      (key : K) (c : Call K) (cs : List (Call K))
      → total_of key (c ∷ cs) ≡ amount_of key c + total_of key cs
  unfolding total_of
  amount_total key (counted k amount) cs = refl
  amount_total key (timed k sample) cs = omega arith

  -- a call that counts for the key has its series
  amount_registered :
      (key : K) (c : Call K) (r : MetricsRegistry K)
      → is_some (get key r.counters) ≡ true
      → (if is_registered r c then amount_of key c else 0) ≡ amount_of key c
  amount_registered key (counted k amount) r known = elim (Bool-cases (e.beq k key)) [
    | inl same ↦ rw (same, (e.beq_iff k key).0 same, known) refl
    | inr other ↦ rw other ground arith
  ]
  amount_registered key (timed k sample) r known = ground arith

  run_shows :
      (fresh : Histogram) (cs : List (Call K)) (r : MetricsRegistry K) (key : K)
      → is_some (get key (run_calls fresh cs r).counters) ≡ true
      → shown (get key (run_calls fresh cs r).counters)
        ≡ shown (get key r.counters) + total_of key cs
  unfolding run_calls total_of
  run_shows fresh [] r key known = omega arith
  run_shows fresh (c ∷ cs) r key known =
      let ok = step-StepOk fresh c r in
      let final = run_calls fresh (c ∷ cs) r in
      let same : (if is_registered (run_call fresh c r) c then amount_of key c else 0)
          ≡ amount_of key c =
        rw (sym (settled fresh c cs r)) (amount_registered key c final known) in
      let rest = run_shows fresh cs (run_call fresh c r) key known in
      omega (arith, rest, ok.shows key, same, amount_total key c cs)

  -- After any calls on a new registry, it has no more series than its ceiling, the calls that it has
  -- dropped are as many as the calls whose series it does not have, and a counter that it has shows
  -- the sum of all amounts that were counted for its key.
  pub registry_counts :
      (fresh : Histogram) (cs : List (Call K)) (max_series : ℕ)
      → (length (run_calls fresh cs (new_registry max_series)).counters
            + length (run_calls fresh cs (new_registry max_series)).histograms
          ≤ max_series)
        × ((run_calls fresh cs (new_registry max_series)).dropped_series
            ≡ refused_of (run_calls fresh cs (new_registry max_series)) cs)
        × ((key : K) (value : ℕ)
            → get key (run_calls fresh cs (new_registry max_series)).counters ≡ some value
            → value ≡ total_of key cs)
  unfolding get
  registry_counts fresh cs max_series =
      let r = new_registry max_series in
      (
        run_within fresh cs r (omega arith),
        omega (arith, run_drops fresh cs r),
        λ key value has.
            let shows = run_shows fresh cs r key (rw has refl) in ground (arith, shows, has),
      )
