-- ===== src/Adapters/Retry/Tests.antt =====
-- Runs of the retry loop of resilience.py with the default policy.
use pitch_bot.Prelude.{ℕ, zero, suc, ◌*◌, ◌≤◌, ◌<◌, ◌≡◌, refl, [], ◌∷◌, All, arith}
use pitch_bot.Adapters.Retry.{
  RetryPolicy, Attempt, returned, timed_out, transient, adapter_timeout, ok, execute_with_retry,
}
use pitch_bot.Adapters.Retry.Laws.{Fails, backoff, backoff_capped, returns_first_result}

abbrev defaults : RetryPolicy
defaults = record {
  max_attempts = 3;
  attempt_timeout = 10000000;
  initial_delay = 100000;
  maximum_delay = 2000000;
}

abbrev twice : ℕ → ℕ
twice d = d * 2

-- the first attempt times out, the second returns, any other fails
abbrev flaky : ℕ → Attempt ℕ
flaky (suc (suc zero)) = returned 42
flaky (suc zero) = timed_out
flaky _ = transient

abbrev broken : ℕ → Attempt ℕ
broken n = transient

backoff_capped_example : All (λ s. s ≤ 2000000) (backoff defaults twice 1500000 2)
backoff_capped_example = backoff_capped defaults twice 1500000 2 (omega arith)

flaky-Fails : (n : ℕ) → 1 ≤ n → n < 2 → Fails flaky n
flaky-Fails zero a b = absurd (omega arith)
flaky-Fails (suc zero) a b = (adapter_timeout 1, refl)
flaky-Fails (suc (suc n)) a b = absurd (omega arith)

returns_first_result_example : execute_with_retry defaults twice flaky ≡ (ok 42, 100000 ∷ [])
returns_first_result_example =
    returns_first_result defaults twice flaky 1 42 (omega arith) flaky-Fails refl
