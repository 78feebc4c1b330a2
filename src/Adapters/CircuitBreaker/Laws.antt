-- ===== src/Adapters/CircuitBreaker/Laws.antt =====
-- The circuit of resilience.py under any interleaving of calls that begin and calls that end.
use pitch_bot.Prelude.{
  ℕ, suc, ◌+◌, ◌≤◌, ◌<◌, ◌≡◌, ◌≢◌, ◌↔◌, true, false, none, some, is_none, List, [], ◌∷◌, length,
  leb, if◌then◌else◌, arith,
}
use pitch_bot.Adapters.CircuitBreaker.{
  closed, open_circuit, half_open, BreakerConfig, config_ok, CircuitBreaker, init, Outcome,
  returned, transient, other, Executed, result, transient_error, other_error, before_call,
  record_failure, record_success, record_aborted_probe, execute_with_circuit_breaker,
}

pub record Inv (c : BreakerConfig) (b : CircuitBreaker) : Type 0 where
  pub closed_few : b.circuit ≡ closed → b.failure_count < c.failure_threshold
  pub tripped_many : b.circuit ≢ closed → c.failure_threshold ≤ b.failure_count
  pub closed_unset : b.circuit ≡ closed → b.opened_at ≡ none
  pub tripped_set : b.circuit ≢ closed → is_none b.opened_at ≡ false
  pub probing : b.half_open_probe_in_flight ≡ true → b.circuit ≡ half_open
  pub probed : b.circuit ≡ half_open → b.half_open_probe_in_flight ≡ true

-- Calls overlap: each begins by `before_call`, and ends later with an outcome.
pub data Calls (c : BreakerConfig) : CircuitBreaker → Type 0 where
  fresh : Calls c init
  begins :
      {b b' : CircuitBreaker} (now : ℕ) → Calls c b → before_call c now b ≡ some b' → Calls c b'
  succeeds : {b : CircuitBreaker} → Calls c b → Calls c (record_success b)
  fails : {b : CircuitBreaker} (now : ℕ) → Calls c b → Calls c (record_failure c now b)
  aborts : {b : CircuitBreaker} (now : ℕ) → Calls c b → Calls c (record_aborted_probe now b)

-- failures recorded one after the other
abbrev pub failed_at : BreakerConfig → List ℕ → CircuitBreaker → CircuitBreaker
failed_at c [] b = b
failed_at c (t ∷ ts) b = failed_at c ts (record_failure c t b)

module _ (c : BreakerConfig) (valid : config_ok c ≡ true) where
  init-Inv : Inv c init
  init-Inv = ground arith

  before_call-Inv :
      (now : ℕ) (b : CircuitBreaker) {b' : CircuitBreaker}
      → Inv c b
      → before_call c now b ≡ some b'
      → Inv c b'
  unfolding before_call
  before_call-Inv now b h e = ground arith

  record_success-Inv : (b : CircuitBreaker) → Inv c (record_success b)
  unfolding record_success
  record_success-Inv b = init-Inv

  record_failure-Inv : (now : ℕ) (b : CircuitBreaker) → Inv c b → Inv c (record_failure c now b)
  unfolding record_failure
  record_failure-Inv now b h = ground arith

  record_aborted_probe-Inv :
      (now : ℕ) (b : CircuitBreaker) → Inv c b → Inv c (record_aborted_probe now b)
  unfolding record_aborted_probe
  record_aborted_probe-Inv now b h = ground arith

  -- However calls overlap, the circuit is closed exactly below the threshold, an opening time is set
  -- exactly when it is not closed, and a probe is in flight exactly when it is half open.
  pub Calls-Inv : {b : CircuitBreaker} → Calls c b → Inv c b
  Calls-Inv fresh = init-Inv
  Calls-Inv (begins {b = b} now r e) = before_call-Inv now b (Calls-Inv r) e
  Calls-Inv (succeeds {b = b} r) = record_success-Inv b
  Calls-Inv (fails {b = b} now r) = record_failure-Inv now b (Calls-Inv r)
  Calls-Inv (aborts {b = b} now r) = record_aborted_probe-Inv now b (Calls-Inv r)

  -- Of the calls that begin at one circuit, one probe at most is let through: after a call that began
  -- while the circuit was not closed, no call begins, at any time, before an outcome is recorded.
  one_probe :
      (b b' : CircuitBreaker) (now later : ℕ)
      → Inv c b
      → b.circuit ≢ closed
      → before_call c now b ≡ some b'
      → before_call c later b' ≡ none
  unfolding before_call
  one_probe b b' now later h n e = ground arith

  -- An open circuit refuses a call exactly until the recovery timeout has passed since it opened.
  pub open_refuses_until :
      (b : CircuitBreaker) (opened now : ℕ)
      → Inv c b
      → b.circuit ≡ open_circuit
      → b.opened_at ≡ some opened
      → (before_call c now b ≡ none) ↔ (now < opened + c.recovery_timeout)
  unfolding before_call
  open_refuses_until b opened now h s o = ground arith

  counted :
      (now : ℕ) (b : CircuitBreaker) → (record_failure c now b).failure_count ≡ suc b.failure_count
  unfolding record_failure
  counted now b = ground arith

  failed_at-count :
      (ts : List ℕ) (b : CircuitBreaker)
      → (failed_at c ts b).failure_count ≡ b.failure_count + length ts
  failed_at-count [] b = omega arith
  failed_at-count (t ∷ ts) b = omega (arith, failed_at-count ts (record_failure c t b), counted t b)

  failed_at-Inv : (ts : List ℕ) (b : CircuitBreaker) → Inv c b → Inv c (failed_at c ts b)
  failed_at-Inv [] b h = h
  failed_at-Inv (t ∷ ts) b h = failed_at-Inv ts (record_failure c t b) (record_failure-Inv t b h)

  failed_not_half_open :
      (ts : List ℕ) (b : CircuitBreaker)
      → b.circuit ≢ half_open
      → (failed_at c ts b).circuit ≢ half_open
  failed_not_half_open [] b h = h
  failed_not_half_open (t ∷ ts) b h =
      failed_not_half_open ts (record_failure c t b) (unfold record_failure in ground arith)

  tripped :
      (b : CircuitBreaker) (n : ℕ)
      → Inv c b
      → b.circuit ≢ half_open
      → b.failure_count ≡ n
      → b.circuit ≡ (if leb c.failure_threshold n then open_circuit else closed)
  tripped b n h k e = ground arith

  -- From a success on, the circuit opens exactly when as many failures in a row as the threshold
  -- have been recorded.
  pub trips_at_threshold :
      (ts : List ℕ) (b : CircuitBreaker)
      → (failed_at c ts (record_success b)).circuit
        ≡ (if leb c.failure_threshold (length ts) then open_circuit else closed)
  unfolding record_success
  trips_at_threshold ts b =
      tripped (failed_at c ts init) (length ts) (failed_at-Inv ts init init-Inv)
        (failed_not_half_open ts init (λ e. cc)) (omega (arith, failed_at-count ts init))

-- The circuit is open, since the given time.
abbrev pub OpenSince : ℕ → CircuitBreaker → Type 0
OpenSince t b = (b.circuit ≡ open_circuit) × (b.opened_at ≡ some t)

-- what a probe that ended at the given time leaves
abbrev pub Decides {ℓ} : {A : Type ℓ} → ℕ → Outcome A → Executed A × CircuitBreaker → Type ℓ
Decides ended (returned a) (r, b) = (r ≡ result a) × (b ≡ init)
Decides ended transient (r, b) = (r ≡ transient_error) × OpenSince ended b
Decides ended other (r, b) = (r ≡ other_error) × OpenSince ended b

module _ {ℓ} {A : Type ℓ} (c : BreakerConfig) where
  -- One call at an open circuit whose timeout has passed is run: a result closes the circuit and
  -- clears the count, and a failure of either kind opens it anew from the time the call ended.
  pub probe-Decides :
      (b : CircuitBreaker) (opened begun ended : ℕ) (o : Outcome A)
      → Inv c b
      → b.circuit ≡ open_circuit
      → b.opened_at ≡ some opened
      → opened + c.recovery_timeout ≤ begun
      → Decides ended o (execute_with_circuit_breaker c begun ended o b)
  unfolding execute_with_circuit_breaker
  probe-Decides b opened begun ended (returned a) h s e t = ground arith
  probe-Decides b opened begun ended transient h s e t = ground arith
  probe-Decides b opened begun ended other h s e t = ground arith
