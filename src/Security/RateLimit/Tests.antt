-- ===== src/Security/RateLimit/Tests.antt =====
-- Runs of rate_limit.py: two tokens, one a second, a clock of milliseconds.
use pitch_bot.Prelude.{◌+◌, ◌-◌, ◌*◌, ◌≤◌, ◌<◌, ◌≡◌, refl, false, [], ◌∷◌, get, put, arith}
use pitch_bot.Security.RateLimit.{Limits, Buckets, check_bucket, check, retry_after_header}
use pitch_bot.Security.RateLimit.Laws.{admitted, admitted_bound, retry_after_header_bounds}

abbrev two_a_second : Limits
two_a_second = record { capacity = 2; refill = 1; unit = 1000; ticks_per_second = 1000 }

abbrev spent : Buckets
spent = ("web", record { tokens = 250; updated_at = 5000 }) ∷ []

admitted_bound_example :
    admitted two_a_second "web" (("web", 10) ∷ ("ops", 11) ∷ ("web", 12) ∷ ("web", 13) ∷ []) []
      * 1000
    ≤ 2 * 1000 + (20 - 10) * 1
admitted_bound_example =
    admitted_bound two_a_second refl "web" 10 20
      (("web", 10) ∷ ("ops", 11) ∷ ("web", 12) ∷ ("web", 13) ∷ []) [] (unfold get in refl)
      (omega arith)

admitted_run :
    admitted two_a_second "web" (("web", 10) ∷ ("ops", 11) ∷ ("web", 12) ∷ ("web", 13) ∷ []) [] ≡ 2
unfolding admitted check check_bucket get put
admitted_run = refl

retry_after_header_bounds_example :
    (1 ≤ retry_after_header two_a_second (record { allowed = false; deficit = 650 }))
    × (1000 * 650
        < (1000 * retry_after_header two_a_second (record { allowed = false; deficit = 650 }) + 1)
          * (1 * 1000))
retry_after_header_bounds_example =
    retry_after_header_bounds two_a_second refl (record { allowed = false; deficit = 650 })
