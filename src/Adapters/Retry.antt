-- ===== src/Adapters/Retry.antt =====
-- src/pitchbot/adapters/resilience.py, `RetryPolicy` and `execute_with_retry`.
-- `operation` gives the outcome of each attempt, and the delays that `sleeper` is handed are kept in
-- order. Delays are in microseconds; `delay * policy.backoff_multiplier`, a product of floats, is the
-- parameter `scale`.
pub mod Laws
mod Tests
use pitch_bot.Prelude.{
  ℕ, zero, suc, ◌+◌, min, Bool, ◌&&◌, Option, none, some, List, [], ◌∷◌, ◌++◌, ltb, leb,
  if◌then◌else◌,
}

pub record RetryPolicy : Type 0 where
  pub max_attempts : ℕ
  pub attempt_timeout : ℕ
  pub initial_delay : ℕ
  pub maximum_delay : ℕ

-- RetryPolicy.__post_init__, less the test that the multiplier is at least 1
abbrev pub policy_ok : RetryPolicy → Bool
policy_ok p =
    leb 1 p.max_attempts && (leb 1 p.attempt_timeout && leb p.initial_delay p.maximum_delay)

pub data Attempt {ℓ} (A : Type ℓ) : Type ℓ where
  returned : A → Attempt A
  timed_out : Attempt A
  transient : Attempt A
  -- any other exception leaves the loop
  other : Attempt A

pub data RetryError : Type 0 where
  adapter_timeout : ℕ → RetryError  -- of which attempt
  transient_error : ℕ → RetryError
  other_error : RetryError
  no_result : RetryError  -- the `RuntimeError` after the loop

pub data Result {ℓ} (A : Type ℓ) : Type ℓ where
  ok : A → Result A
  err : RetryError → Result A

abbrev pub raise_last {ℓ} : {A : Type ℓ} → Option RetryError → Result A
raise_last none = err no_result
raise_last (some e) = err e

module _ {ℓ} {A : Type ℓ} (policy : RetryPolicy) (scale : ℕ → ℕ) (operation : ℕ → Attempt A) where
  -- `left` attempts remain in the `range`, `attempt` is the next
  unfoldable pub retry_loop :
      (left attempt delay : ℕ) → Option RetryError → List ℕ → Result A × List ℕ
  retry_loop zero attempt delay last_error slept = (raise_last last_error, slept)
  retry_loop (suc left) attempt delay last_error slept =
      let again = λ (e : RetryError).
        if ltb attempt policy.max_attempts
        then retry_loop left (attempt + 1) (min (scale delay) policy.maximum_delay) (some e)
            (slept ++ delay ∷ [])
        else retry_loop left (attempt + 1) delay (some e) slept in
      elim (operation attempt) [
        | returned a ↦ (ok a, slept)
        | timed_out ↦ again (adapter_timeout attempt)
        | transient ↦ again (transient_error attempt)
        | other ↦ (err other_error, slept)
      ]

  unfoldable pub execute_with_retry : Result A × List ℕ
  execute_with_retry = retry_loop policy.max_attempts 1 policy.initial_delay none []
