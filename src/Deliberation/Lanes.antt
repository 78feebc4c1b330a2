-- ===== src/Deliberation/Lanes.antt =====
-- Who may use the CPU: `LaneScheduler` and `YieldBudget` of src/pitchbot/deliberation/lanes.py.
-- A waiter is a number that stands for its future, and `woken` collects the futures that have been
-- given their result. An `await` ends one step and starts another. A time is a number.
pub mod Laws
mod Tests
use pitch_bot.Prelude.{
  ℕ, ◌+◌, ◌-◌, Bool, true, false, not, List, [], ◌∷◌, ◌++◌, leb, ltb, ◌==◌, nat_eq, member,
  if◌then◌else◌,
}

pub record LaneStats : Type 0 where
  pub turns : ℕ
  pub yields : ℕ
  pub deliberations_started : ℕ
  pub deliberations_completed : ℕ
  pub deliberations_preempted : ℕ

pub record LaneScheduler : Type 0 where
  pub turn_depth : ℕ
  pub turns : ℕ
  pub yields : ℕ
  pub started : ℕ
  pub completed : ℕ
  pub preempted : ℕ
  pub idle_waiters : List ℕ
  pub woken : List ℕ

abbrev pub idle_scheduler : LaneScheduler
idle_scheduler = record {
  turn_depth = 0;
  turns = 0;
  yields = 0;
  started = 0;
  completed = 0;
  preempted = 0;
  idle_waiters = [];
  woken = [];
}

-- `turn`, up to its `yield`
unfoldable pub enter_turn : LaneScheduler → LaneScheduler
enter_turn s =
    let depth = s.turn_depth + 1 in
    record s { turn_depth = depth; turns = if depth == 1 then s.turns + 1 else s.turns }

unfoldable pub release_idle_waiters : LaneScheduler → LaneScheduler
release_idle_waiters s = record s { idle_waiters = []; woken = s.woken ++ s.idle_waiters }

-- `turn`, its `finally`; a turn that ends has begun, so the depth is positive
unfoldable pub exit_turn : LaneScheduler → LaneScheduler
exit_turn s =
    let t = record s { turn_depth = s.turn_depth - 1 } in
    if t.turn_depth == 0 then release_idle_waiters t else t

abbrev pub turn_in_flight : LaneScheduler → Bool
turn_in_flight s = ltb 0 s.turn_depth

unfoldable pub should_yield : LaneScheduler → Bool × LaneScheduler
should_yield s =
    if ltb 0 s.turn_depth then (true, record s { yields = s.yields + 1 }) else (false, s)

-- `wait_until_idle`, up to the wait: true when it returns at once, else the waiter is in the list
unfoldable pub begin_wait : ℕ → LaneScheduler → Bool × LaneScheduler
begin_wait waiter s =
    if s.turn_depth == 0
    then (true, s)
    else (false, record s { idle_waiters = s.idle_waiters ++ (waiter ∷ []) })

unfoldable pub drop_first : ℕ → List ℕ → List ℕ
drop_first w [] = []
drop_first w (v ∷ vs) = let rest = drop_first w vs in if v == w then vs else v ∷ rest

-- `wait_until_idle` after the wait: whether the waiter has its result, else the time has run out
unfoldable pub end_wait : ℕ → LaneScheduler → Bool × LaneScheduler
end_wait waiter s =
    (member waiter s.woken, record s { idle_waiters = drop_first waiter s.idle_waiters })

unfoldable pub deliberation_started : LaneScheduler → LaneScheduler
deliberation_started s = record s { started = s.started + 1 }

unfoldable pub deliberation_finished : Bool → LaneScheduler → LaneScheduler
deliberation_finished true s = record s { preempted = s.preempted + 1 }
deliberation_finished false s = record s { completed = s.completed + 1 }

unfoldable pub stats : LaneScheduler → LaneStats
stats s = record {
  turns = s.turns;
  yields = s.yields;
  deliberations_started = s.started;
  deliberations_completed = s.completed;
  deliberations_preempted = s.preempted;
}

pub record YieldBudget : Type 0 where
  pub max_seconds : ℕ
  pub started_at : ℕ
  pub preempted_by_turn : Bool
  pub exhausted : Bool

abbrev pub new_budget : ℕ → ℕ → YieldBudget
new_budget max_seconds now = record {
  max_seconds = max_seconds;
  started_at = now;
  preempted_by_turn = false;
  exhausted = false;
}

abbrev pub elapsed : ℕ → YieldBudget → ℕ
elapsed now b = now - b.started_at

unfoldable pub should_stop : ℕ → YieldBudget → LaneScheduler → Bool × (YieldBudget × LaneScheduler)
should_stop now b s =
    let asked = should_yield s in
    if asked.0
    then (true, (record b { preempted_by_turn = true }, asked.1))
    else if leb b.max_seconds (elapsed now b)
    then (true, (record b { exhausted = true }, asked.1))
    else (false, (b, asked.1))

-- One step of either lane.
pub data Step : Type 0 where
  entering exiting asking starting : Step
  waiting ending : ℕ → Step
  finishing : Bool → Step

-- a turn ends only after it began, which `turn` guarantees by its `try` and `finally`
unfoldable pub step : Step → LaneScheduler → LaneScheduler
step entering s = enter_turn s
step exiting s = if s.turn_depth == 0 then s else exit_turn s
step asking s = (should_yield s).1
step starting s = deliberation_started s
step (waiting w) s = (begin_wait w s).1
step (ending w) s = (end_wait w s).1
step (finishing p) s = deliberation_finished p s

unfoldable pub run : List Step → LaneScheduler → LaneScheduler
run [] s = s
run (x ∷ xs) s = run xs (step x s)
