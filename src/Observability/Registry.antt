-- ===== src/Observability/Registry.antt =====
-- `MetricsRegistry` and `Counter` of src/pitchbot/observability/metrics.py, as their callers use them:
-- a series is asked for by its name and labels, and counts at once. A key stands for a name with
-- its sorted labels, and `fresh` is the empty histogram of the buckets. The object that a refused
-- caller gets is in no dict, so what it counts is nowhere. A negative amount, which is refused, is
-- left out, and so are the help texts and the rendering.
pub mod Series
pub mod Steps
pub mod Laws
mod Tests
use pitch_bot.Prelude.{
  ℕ, ◌+◌, Bool, true, false, Option, none, some, List, [], ◌∷◌, length, leb, Eq, Dict, get, put,
  if◌then◌else◌,
}
use pitch_bot.Observability.Histogram.{Histogram, observe_value}

abbrev pub default_max_series : ℕ
default_max_series = 2000

pub record MetricsRegistry {ℓ} (K : Type ℓ) : Type ℓ where
  pub max_series : ℕ
  pub counters : Dict K ℕ
  pub histograms : Dict K Histogram
  pub dropped_series : ℕ

abbrev pub new_registry {ℓ} : {K : Type ℓ} → ℕ → MetricsRegistry K
new_registry max_series = record {
  max_series = max_series;
  counters = [];
  histograms = [];
  dropped_series = 0;
}

abbrev pub is_full {ℓ} : {K : Type ℓ} → MetricsRegistry K → Bool
is_full r = leb r.max_series (length r.counters + length r.histograms)

module _ {ℓ} {K : Type ℓ} ⦃e : Eq K⦄ where
  -- the counter that is in the registry now, if any
  unfoldable pub counter : K → MetricsRegistry K → Option ℕ × MetricsRegistry K
  counter key r = elim (get key r.counters) [
    | some value ↦ (some value, r)
    | none ↦
        if is_full r
        then (none, record r { dropped_series = r.dropped_series + 1 })
        else (some 0, record r { counters = put key 0 r.counters })
  ]

  unfoldable pub histogram :
      Histogram → K → MetricsRegistry K → Option Histogram × MetricsRegistry K
  histogram fresh key r = elim (get key r.histograms) [
    | some h ↦ (some h, r)
    | none ↦
        if is_full r
        then (none, record r { dropped_series = r.dropped_series + 1 })
        else (some fresh, record r { histograms = put key fresh r.histograms })
  ]

  -- `increment` of what `counter` gave
  abbrev pub increment : K → ℕ → Option ℕ × MetricsRegistry K → MetricsRegistry K
  increment key amount (none, r) = r
  increment key amount (some value, r) = record r { counters = put key (value + amount) r.counters }

  -- `observe` of what `histogram` gave
  abbrev pub observe_in : K → Option ℕ → Option Histogram × MetricsRegistry K → MetricsRegistry K
  observe_in key sample (none, r) = r
  observe_in key sample (some h, r) = record r {
    histograms = put key (observe_value sample h) r.histograms;
  }

pub data Call {ℓ} (K : Type ℓ) : Type ℓ where
  counted : K → ℕ → Call K
  timed : K → Option ℕ → Call K

module _ {ℓ} {K : Type ℓ} ⦃e : Eq K⦄ where
  unfoldable pub run_call : Histogram → Call K → MetricsRegistry K → MetricsRegistry K
  run_call fresh (counted key amount) r = increment key amount (counter key r)
  run_call fresh (timed key sample) r = observe_in key sample (histogram fresh key r)

  unfoldable pub run_calls : Histogram → List (Call K) → MetricsRegistry K → MetricsRegistry K
  run_calls fresh [] r = r
  run_calls fresh (c ∷ cs) r = run_calls fresh cs (run_call fresh c r)
