-- ===== src/Deliberation/Lanes/Tests.antt =====
-- The lanes, run at concrete steps.
use pitch_bot.Prelude.{◌≡◌, ◌≢◌, ◌↔◌, ◌⊎◌, ◌<◌, ◌≤◌, ◌-◌, refl, true, List, [], ◌∷◌, arith}
use pitch_bot.Deliberation.Lanes.{
  LaneScheduler, idle_scheduler, Step, entering, exiting, waiting, run, step, enter_turn, exit_turn,
  release_idle_waiters, begin_wait, end_wait, new_budget, should_stop,
}
use pitch_bot.Deliberation.Lanes.Laws.{waiter_gets_result, should_stop_exact}

-- a turn inside a turn, and a deliberation that waits for both
abbrev nested : List Step
nested = entering ∷ entering ∷ waiting 7 ∷ exiting ∷ exiting ∷ []

nested_wakes : (run nested idle_scheduler).woken ≡ 7 ∷ []
unfolding run step enter_turn exit_turn release_idle_waiters begin_wait
nested_wakes = refl

-- the same, from the first turn on
abbrev rest : List Step
rest = entering ∷ exiting ∷ exiting ∷ []

nested_busy : (run (entering ∷ []) idle_scheduler).turn_depth ≡ 1
unfolding run step enter_turn
nested_busy = refl

rest_idle : (run (waiting 7 ∷ rest) (run (entering ∷ []) idle_scheduler)).turn_depth ≡ 0
unfolding run step enter_turn exit_turn release_idle_waiters begin_wait
rest_idle = refl

waiter_gets_result_example :
    let s = run (waiting 7 ∷ rest) (run (entering ∷ []) idle_scheduler) in
    ((end_wait 7 s).0 ≡ true) × (s.idle_waiters ≡ [])
waiter_gets_result_example =
    waiter_gets_result 7 (entering ∷ []) rest (omega (arith, nested_busy))
      (refl, (refl, (refl, tt))) rest_idle

abbrev busy : LaneScheduler
busy = record idle_scheduler { turn_depth = 1; turns = 1 }

should_stop_exact_example :
    let b = new_budget 30 100 in
    let out = should_stop 105 b busy in
    ((out.0 ≡ true) ↔ ((0 < busy.turn_depth) ⊎ (b.max_seconds ≤ 105 - b.started_at)))
    × ((out.1.0.preempted_by_turn ≡ true) ↔ (0 < busy.turn_depth))
    × ((out.1.0.exhausted ≡ true) ↔ ((out.0 ≡ true) × (busy.turn_depth ≡ 0)))
    × ((out.1.1.yields ≢ busy.yields) ↔ (0 < busy.turn_depth))
should_stop_exact_example = should_stop_exact 105 (new_budget 30 100) busy refl refl
