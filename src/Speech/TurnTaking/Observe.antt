-- ===== src/Speech/TurnTaking/Observe.antt =====
-- Every frame that turn_taking.py observes keeps the invariant, and no assertion fails.
use pitch_bot.Prelude.{
  ◌+◌, ◌<◌, ◌≡◌, Bool, true, false, Option, none, some, arith, ltb, leb, ◌⊎◌, inl, inr, Bool-cases,
}
use pitch_bot.Speech.Models.{
  TurnTakingState, idle, listening, agent_speaking, SpeechFrame, frame_ok, max_frame_duration_ms,
}
use pitch_bot.Speech.TurnTaking.{
  TurnTakingConfig, TurnTakingDecision, TurnTaking, config_ok, with_discarded, release_floor,
  reset_utterance, accumulate, start, endpoint, observe_while_listening, observe_while_agent_speaks,
  observe,
}
use pitch_bot.Speech.TurnTaking.Invariant.{IsClean, IsStarted, limit_ms, IsOpen, Inv, StepOk}

-- what `accumulate` makes of an utterance that has begun
record Grown (f : SpeechFrame) (t u : TurnTaking) : Type 0 where
  begun : IsStarted u
  same_state : u.state ≡ t.state
  same_run : u.barge_in_speech_ms ≡ t.barge_in_speech_ms
  same_elapsed : u.agent_speech_elapsed_ms ≡ t.agent_speech_elapsed_ms
  longer : u.speech_ms + u.silence_ms ≡ t.speech_ms + t.silence_ms + f.duration_ms

accumulate-Grown : (f : SpeechFrame) (t : TurnTaking) → IsStarted t → Grown f t (accumulate f t)
unfolding accumulate
accumulate-Grown f t h = ground arith

accumulate_speech :
    (f : SpeechFrame) (t : TurnTaking)
    → f.is_speech ≡ true
    → ((accumulate f t).speech_ms ≡ t.speech_ms + f.duration_ms)
      × ((accumulate f t).silence_ms ≡ t.silence_ms)
      × ((accumulate f t).trailing_silence_ms ≡ 0)
unfolding accumulate
accumulate_speech f t h = ground arith

start-IsStarted : (f : SpeechFrame) (t : TurnTaking) → IsClean t → IsStarted (start f t)
unfolding start
start-IsStarted f t h = ground arith

start_speech :
    (f : SpeechFrame) (t : TurnTaking)
    → IsClean t
    → f.is_speech ≡ true
    → ((start f t).speech_ms ≡ f.duration_ms)
      × ((start f t).silence_ms ≡ 0)
      × ((start f t).trailing_silence_ms ≡ 0)
      × ((start f t).state ≡ t.state)
      × ((start f t).barge_in_speech_ms ≡ t.barge_in_speech_ms)
      × ((start f t).agent_speech_elapsed_ms ≡ t.agent_speech_elapsed_ms)
unfolding start
start_speech f t h s = ground arith

release_floor-IsClean :
    (t : TurnTaking)
    → IsClean (release_floor t)
      × ((release_floor t).state ≡ idle)
      × ((release_floor t).barge_in_speech_ms ≡ 0)
unfolding release_floor
release_floor-IsClean t = ground arith

state_cases : (s : TurnTakingState) → (s ≡ agent_speaking) ⊎ ((s ≡ listening) ⊎ (s ≡ idle))
state_cases s = ground arith

module _ (c : TurnTakingConfig) (valid : config_ok c ≡ true) where
  endpoint-StepOk :
      (t : TurnTaking)
      → t.state ≡ listening
      → t.barge_in_speech_ms ≡ 0
      → IsStarted t
      → t.speech_ms + t.silence_ms < limit_ms c + max_frame_duration_ms
      → StepOk c (endpoint c t)
  unfolding endpoint
  endpoint-StepOk t s r b h = ground arith

  begin_listening :
      (f : SpeechFrame) (t : TurnTaking)
      → frame_ok f ≡ true
      → t.state ≡ idle
      → IsClean t
      → t.barge_in_speech_ms ≡ 0
      → StepOk c (observe_while_listening c f t)
  unfolding observe_while_listening start
  begin_listening f t v s k r = ground arith

  grow_listening :
      (f : SpeechFrame) (t u : TurnTaking)
      → frame_ok f ≡ true
      → t.state ≡ listening
      → IsOpen c t
      → Grown f t u
      → StepOk c (endpoint c u)
  grow_listening f t u v s o g =
      endpoint-StepOk u (ground arith) (ground arith) g.begun (ground arith)

  keep_listening :
      (f : SpeechFrame) (t : TurnTaking)
      → frame_ok f ≡ true
      → t.state ≡ listening
      → IsOpen c t
      → StepOk c (observe_while_listening c f t)
  unfolding observe_while_listening
  keep_listening f t v s o =
      simp s (grow_listening f t (accumulate f t) v s o (accumulate-Grown f t o.begun))

  -- reclaiming the floor from a client that never reported the end of playback
  discarded-StepOk :
      (stale : Bool) (r : Option (TurnTakingDecision × TurnTaking))
      → StepOk c r
      → StepOk c (with_discarded stale r)
  discarded-StepOk stale none h = h
  discarded-StepOk true (some (d, t)) h = h
  discarded-StepOk false (some (d, t)) h = h

  reclaim_floor :
      (f : SpeechFrame) (t : TurnTaking) (stale : Bool)
      → frame_ok f ≡ true
      → StepOk c (with_discarded stale (observe_while_listening c f (release_floor t)))
  reclaim_floor f t stale v =
      let (k, s, r) = release_floor-IsClean t in
      discarded-StepOk stale _ (begin_listening f (release_floor t) v s k r)

  while_agent_speaks :
      (f : SpeechFrame) (t : TurnTaking)
      → frame_ok f ≡ true
      → t.state ≡ agent_speaking
      → Inv c t
      → StepOk c (observe_while_agent_speaks c f t)
  unfolding observe_while_agent_speaks start accumulate reset_utterance
  while_agent_speaks f t v s h =
      elim (Bool-cases (leb c.agent_floor_ms (t.agent_speech_elapsed_ms + f.duration_ms))) [
        | inl e ↦ rw e (
            reclaim_floor f
              (record t { agent_speech_elapsed_ms = t.agent_speech_elapsed_ms + f.duration_ms })
              (ltb 0 t.barge_in_speech_ms) v)
        | inr e ↦ rw e (ground arith)
      ]

  -- From counters that are valid, a valid frame fails no assertion; the counters stay valid, the
  -- decision names the new state, and a segment that is closed fits its reason and its bounds.
  pub observe-StepOk :
      (f : SpeechFrame) (t : TurnTaking) → frame_ok f ≡ true → Inv c t → StepOk c (observe c f t)
  unfolding observe
  observe-StepOk f t v h = elim (state_cases t.state) [
    | inl s ↦ simp s (while_agent_speaks f t v s h)
    | inr (inl s) ↦ simp s (keep_listening f t v s (h.listening_open s))
    | inr (inr s) ↦ simp s (begin_listening f t v s (h.idle_clean s) (h.idle_run s))
  ]
