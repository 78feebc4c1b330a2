-- ===== src/Security/RateLimit.antt =====
-- src/pitchbot/security/rate_limit.py: a token bucket for each credential.
-- Floats are exact here: a token is `unit` parts, a bucket holds parts, the clock counts ticks, and
-- `refill` parts come back in a tick, so that `refill_per_second` is
-- `refill * ticks_per_second / unit`. `self._time_source()` is the argument `now`.
pub mod Laws
mod Tests
use pitch_bot.Prelude.{
  ℕ, ◌+◌, ◌-◌, ◌*◌, ◌/◌, min, max, Bool, true, false, ◌&&◌, Option, none, some, String, string_eq,
  Dict, get, put, remove, leb, if◌then◌else◌,
}

pub record Limits : Type 0 where
  pub capacity : ℕ
  pub refill : ℕ
  pub unit : ℕ
  pub ticks_per_second : ℕ

-- the checks of `RateLimiter.__init__`, and that the scales are not 0
abbrev pub limits_ok : Limits → Bool
limits_ok l = leb 1 l.capacity && (leb 1 l.refill && (leb 1 l.unit && leb 1 l.ticks_per_second))

-- `retry_after_seconds` is `deficit / (refill * ticks_per_second)`
pub record RateLimitDecision : Type 0 where
  pub allowed : Bool
  pub deficit : ℕ

pub record Bucket : Type 0 where
  pub tokens : ℕ
  pub updated_at : ℕ

abbrev pub Buckets : Type 0
Buckets = Dict String Bucket

module _ (limits : Limits) where
  abbrev pub full : ℕ
  full = limits.capacity * limits.unit

  -- `max(0.0, now - updated_at)` is the truncated difference
  abbrev refilled : ℕ → Option Bucket → Bucket
  refilled now none = record { tokens = full; updated_at = now }
  refilled now (some b) = record {
    tokens = min full (b.tokens + (now - b.updated_at) * limits.refill);
    updated_at = now;
  }

  abbrev spend : Bucket → RateLimitDecision × Bucket
  spend b =
      if leb limits.unit b.tokens
      then (record { allowed = true; deficit = 0 }, record b { tokens = b.tokens - limits.unit })
      else (record { allowed = false; deficit = limits.unit - b.tokens }, b)

  -- what `check` does to one bucket
  unfoldable pub check_bucket : ℕ → Option Bucket → RateLimitDecision × Bucket
  check_bucket now o = spend (refilled now o)

  unfoldable pub check : String → ℕ → Buckets → RateLimitDecision × Buckets
  check key now buckets = let (d, b) = check_bucket now (get key buckets) in (d, put key b buckets)

  -- `max(1, int(retry_after_seconds + 0.999))`
  unfoldable pub retry_after_header : RateLimitDecision → ℕ
  retry_after_header d =
      let second = limits.refill * limits.ticks_per_second in
      max 1 ((1000 * d.deficit + 999 * second) / (1000 * second))

unfoldable pub forget : String → Buckets → Buckets
forget key buckets = remove key buckets
