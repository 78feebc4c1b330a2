-- ===== src/Deliberation/Lanes/Laws.antt =====
-- That a waiter gets its result once no turn is in flight, and when the slow lane stops.
use pitch_bot.Prelude.{
  ℕ, ◌-◌, ◌≡◌, ◌≢◌, ◌↔◌, ◌⊎◌, ◌<◌, ◌≤◌, refl, sym, ap, ◌∙◌, Bool, true, false, not, ◌||◌, ◌==◌,
  ◌++◌, member, All, List, [], ◌∷◌, nat_eq, arith,
}
use pitch_bot.Deliberation.Lanes.{
  LaneScheduler, idle_scheduler, enter_turn, exit_turn, release_idle_waiters, should_yield,
  begin_wait, drop_first, end_wait, deliberation_started, deliberation_finished, YieldBudget,
  should_stop, Step, entering, exiting, asking, starting, waiting, ending, finishing, step, run,
}

-- Nobody waits while no turn is in flight.
pub Inv : LaneScheduler → Type 0
Inv s = s.turn_depth ≡ 0 → s.idle_waiters ≡ []

step-Inv : (x : Step) (s : LaneScheduler) → Inv s → Inv (step x s)
unfolding Inv step enter_turn exit_turn release_idle_waiters should_yield begin_wait drop_first
    end_wait deliberation_started deliberation_finished
step-Inv x s h = ground arith

run-Inv : (xs : List Step) (s : LaneScheduler) → Inv s → Inv (run xs s)
unfolding run
run-Inv [] s h = h
run-Inv (x ∷ xs) s h = run-Inv xs (step x s) (step-Inv x s h)

idle_nobody :
    (xs : List Step)
    → (run xs idle_scheduler).turn_depth ≡ 0
    → (run xs idle_scheduler).idle_waiters ≡ []
unfolding Inv
idle_nobody xs = run-Inv xs idle_scheduler (λ e. refl)

-- the future is in the list, or has its result
abbrev Held : ℕ → LaneScheduler → Type 0
Held w s = (member w s.idle_waiters || member w s.woken) ≡ true

-- the step is not the end of this wait
abbrev pub other_end : ℕ → Step → Bool
other_end w (ending v) = not (v == w)
other_end w _ = true

member-append : (w : ℕ) (xs ys : List ℕ) → member w (xs ++ ys) ≡ (member w xs || member w ys)
unfolding member
member-append w [] ys = refl
member-append w (x ∷ xs) ys = ground (arith, member-append w xs ys)

member-drop_first :
    (w v : ℕ) (xs : List ℕ) → (v == w) ≡ false → member w (drop_first v xs) ≡ member w xs
unfolding member drop_first
member-drop_first w v [] h = refl
member-drop_first w v (x ∷ xs) h = ground (arith, member-drop_first w v xs h)

step-Held :
    (w : ℕ) (x : Step) (s : LaneScheduler) → other_end w x ≡ true → Held w s → Held w (step x s)
unfolding step enter_turn exit_turn release_idle_waiters should_yield begin_wait end_wait
    deliberation_started deliberation_finished
step-Held w entering s e h = h
step-Held w exiting s e h = ground (arith, member-append w s.woken s.idle_waiters)
step-Held w asking s e h = ground arith
step-Held w starting s e h = h
step-Held w (waiting v) s e h = ground (arith, member-append w s.idle_waiters (v ∷ []))
step-Held w (ending v) s e h = ground (arith, member-drop_first w v s.idle_waiters)
step-Held w (finishing true) s e h = h
step-Held w (finishing false) s e h = h

run-Held :
    (w : ℕ) (xs : List Step) (s : LaneScheduler)
    → All (λ x. other_end w x ≡ true) xs
    → Held w s
    → Held w (run xs s)
unfolding run
run-Held w [] s e h = h
run-Held w (x ∷ xs) s e h = run-Held w xs (step x s) e.1 (step-Held w x s e.0 h)

begin_wait-Held : (w : ℕ) (s : LaneScheduler) → 0 < s.turn_depth → Held w (step (waiting w) s)
unfolding step begin_wait member
begin_wait-Held w s busy = ground (arith, member-append w s.idle_waiters (w ∷ []))

run-append : (xs ys : List Step) (s : LaneScheduler) → run (xs ++ ys) s ≡ run ys (run xs s)
unfolding run
run-append [] ys s = refl
run-append (x ∷ xs) ys s = run-append xs ys (step x s)

woken_when_idle :
    (w : ℕ) (s : LaneScheduler) → Held w s → s.idle_waiters ≡ [] → (end_wait w s).0 ≡ true
unfolding end_wait member
woken_when_idle w s h e = ground (arith, h, e)

-- Take a waiter that begins to wait while a turn is in flight, after any steps of either lane. After
-- any further steps but the end of its wait, once no turn is in flight, it has its result, and nobody
-- is left in the list.
pub waiter_gets_result :
    (w : ℕ) (before after : List Step)
    → 0 < (run before idle_scheduler).turn_depth
    → All (λ x. other_end w x ≡ true) after
    → let s = run (waiting w ∷ after) (run before idle_scheduler) in
      s.turn_depth ≡ 0 → ((end_wait w s).0 ≡ true) × (s.idle_waiters ≡ [])
unfolding run
waiter_gets_result w before after busy still idle =
    let s = run before idle_scheduler in
    let e = run-append before (waiting w ∷ after) idle_scheduler in
    let nobody : (run after (step (waiting w) s)).idle_waiters ≡ [] =
      ap (λ x. x.idle_waiters) (sym e)
      ∙ idle_nobody (before ++ waiting w ∷ after) (ap (λ x. x.turn_depth) e ∙ idle) in
    (
      woken_when_idle w (run after (step (waiting w) s))
          (run-Held w after (step (waiting w) s) still (begin_wait-Held w s busy)) nobody,
      nobody,
    )

-- A deliberation is told to stop exactly while a turn is in flight or once its time is spent. The
-- flag of the turn is raised exactly in the first case, which alone is counted, and the flag of the
-- time exactly when it stops with no turn in flight.
pub should_stop_exact :
    (now : ℕ) (b : YieldBudget) (s : LaneScheduler)
    → b.preempted_by_turn ≡ false
    → b.exhausted ≡ false
    → let out = should_stop now b s in
      ((out.0 ≡ true) ↔ ((0 < s.turn_depth) ⊎ (b.max_seconds ≤ now - b.started_at)))
      × ((out.1.0.preempted_by_turn ≡ true) ↔ (0 < s.turn_depth))
      × ((out.1.0.exhausted ≡ true) ↔ ((out.0 ≡ true) × (s.turn_depth ≡ 0)))
      × ((out.1.1.yields ≢ s.yields) ↔ (0 < s.turn_depth))
unfolding should_stop should_yield
should_stop_exact now b s p e = ground arith
