-- ===== src/Adapters/Retry/Laws.antt =====
-- What the retry loop of resilience.py returns, and how long it sleeps in between.
use pitch_bot.Prelude.{
  ℕ, zero, suc, ◌+◌, ◌-◌, ◌≤◌, ◌<◌, min, ◌≡◌, refl, ap, ◌∙◌, Option, none, some, List, [], ◌∷◌,
  ◌++◌, length, All, arith,
}
use mathlib.Core.List.{append-nil, append_assoc}
use native.Mathlib.Nat.{add-zero}
use pitch_bot.Adapters.Retry.{
  RetryPolicy, Attempt, returned, timed_out, transient, RetryError, adapter_timeout,
  transient_error, ok, err, retry_loop, execute_with_retry,
}

-- the error that a failed attempt leaves for the end of the loop
abbrev pub error_of {ℓ} : {A : Type ℓ} → ℕ → Attempt A → Option RetryError
error_of n timed_out = some (adapter_timeout n)
error_of n transient = some (transient_error n)
error_of n _ = none

-- attempt `n` times out or is transient
abbrev pub Fails {ℓ} : {A : Type ℓ} → (ℕ → Attempt A) → ℕ → Type 0
Fails operation n = (e : RetryError) × (error_of n (operation n) ≡ some e)

-- the first delay, and each later one scaled and capped
abbrev pub backoff : RetryPolicy → (ℕ → ℕ) → ℕ → ℕ → List ℕ
backoff p scale delay zero = []
backoff p scale delay (suc n) = delay ∷ backoff p scale (min (scale delay) p.maximum_delay) n

length-backoff : (p : RetryPolicy) (scale : ℕ → ℕ) (d n : ℕ) → length (backoff p scale d n) ≡ n
length-backoff p scale d zero = refl
length-backoff p scale d (suc n) = ap suc (length-backoff p scale (min (scale d) p.maximum_delay) n)

-- No delay is above the policy's maximum.
pub backoff_capped :
    (p : RetryPolicy) (scale : ℕ → ℕ) (d n : ℕ)
    → d ≤ p.maximum_delay
    → All (λ s. s ≤ p.maximum_delay) (backoff p scale d n)
backoff_capped p scale d zero h = tt
backoff_capped p scale d (suc n) h =
    (h, backoff_capped p scale (min (scale d) p.maximum_delay) n (omega arith))

module _ {ℓ} {A : Type ℓ} (policy : RetryPolicy) (scale : ℕ → ℕ) (operation : ℕ → Attempt A) where
  -- the delay that the loop holds after `n` more failures
  abbrev scaled : ℕ → ℕ → ℕ
  scaled d zero = d
  scaled d (suc n) = scaled (min (scale d) policy.maximum_delay) n

  fail_step :
      (left attempt delay : ℕ) (last : Option RetryError) (slept : List ℕ) (e : RetryError)
      → error_of attempt (operation attempt) ≡ some e
      → attempt < policy.max_attempts
      → retry_loop policy scale operation (suc left) attempt delay last slept
        ≡ retry_loop policy scale operation left
            (attempt + 1)
            (min (scale delay) policy.maximum_delay)
            (some e)
            (slept ++ delay ∷ [])
  unfolding retry_loop
  fail_step left attempt delay last slept e h l = ground arith

  -- the loop after `k` failed attempts, none of them the last one allowed
  after_failures :
      (k left m attempt delay : ℕ) (last : Option RetryError) (slept : List ℕ)
      → left ≡ k + m
      → attempt + k ≤ policy.max_attempts
      → ((n : ℕ) → attempt ≤ n → n < attempt + k → Fails operation n)
      → (l : Option RetryError) × (retry_loop policy scale operation left attempt delay last slept
          ≡ retry_loop policy scale operation m
              (attempt + k)
              (scaled delay k)
              l
              (slept ++ backoff policy scale delay k))
  after_failures zero left m attempt delay last slept e b f =
      let same : left ≡ m = omega arith in (last, cc (same, append-nil slept, add-zero attempt))
  after_failures (suc k) zero m attempt delay last slept e b f = absurd (omega arith)
  after_failures (suc k) (suc left) m attempt delay last slept e b f =
      let (x, h) = f attempt (omega arith) (omega arith) in
      let (l, p) =
        after_failures k left m (attempt + 1) (min (scale delay) policy.maximum_delay) (some x)
          (slept ++ delay ∷ []) (omega arith) (omega arith)
          (λ n a c. f n (omega arith) (omega arith)) in
      let count : attempt + 1 + k ≡ attempt + suc k = omega arith in
      (
        l,
        cc (
          fail_step left attempt delay last slept x h (omega arith),
          p,
          count,
          append_assoc slept (delay ∷ [])
              (backoff policy scale (min (scale delay) policy.maximum_delay) k),
        ),
      )

  returned_step :
      (left attempt delay : ℕ) (last : Option RetryError) (slept : List ℕ) (a : A)
      → operation attempt ≡ returned a
      → retry_loop policy scale operation (suc left) attempt delay last slept ≡ (ok a, slept)
  unfolding retry_loop
  returned_step left attempt delay last slept a h = ground arith

  last_step :
      (attempt delay : ℕ) (last : Option RetryError) (slept : List ℕ) (e : RetryError)
      → error_of attempt (operation attempt) ≡ some e
      → policy.max_attempts ≤ attempt
      → retry_loop policy scale operation 1 attempt delay last slept ≡ (err e, slept)
  unfolding retry_loop
  last_step attempt delay last slept e h l = ground arith

  -- The operation is tried until an attempt returns: its result is the call's, and the delays slept
  -- are the backoff of the attempts that failed before it, each of which timed out or was transient.
  pub returns_first_result :
      (k : ℕ) (a : A)
      → k < policy.max_attempts
      → ((n : ℕ) → 1 ≤ n → n < 1 + k → Fails operation n)
      → operation (1 + k) ≡ returned a
      → execute_with_retry policy scale operation
        ≡ (ok a, backoff policy scale policy.initial_delay k)
  unfolding execute_with_retry
  returns_first_result k a b f r =
      let left : policy.max_attempts ≡ k + suc (policy.max_attempts - suc k) = omega arith in
      let (l, p) =
        after_failures k policy.max_attempts (suc (policy.max_attempts - suc k)) 1
          policy.initial_delay none [] left (omega arith) f in
      p ∙ returned_step _ (1 + k) (scaled policy.initial_delay k) l _ a r

  -- When every attempt that the policy allows fails, the error of the last one is raised, after one
  -- delay fewer than there were attempts.
  pub raises_last_error :
      (k : ℕ) (e : RetryError)
      → policy.max_attempts ≡ suc k
      → ((n : ℕ) → 1 ≤ n → n < 1 + k → Fails operation n)
      → error_of (1 + k) (operation (1 + k)) ≡ some e
      → execute_with_retry policy scale operation
        ≡ (err e, backoff policy scale policy.initial_delay k)
  unfolding execute_with_retry
  raises_last_error k e b f r =
      let (l, p) =
        after_failures k policy.max_attempts 1 1 policy.initial_delay none [] (omega arith)
          (omega arith) f in
      p ∙ last_step (1 + k) (scaled policy.initial_delay k) l _ e r (omega arith)
