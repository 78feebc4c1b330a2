-- ===== src/Speech/TurnTaking/Runs.antt =====
-- Whole conversations of turn_taking.py: what holds after any calls, when the floor comes back, and
-- the call order under which an assertion fails.
use pitch_bot.Prelude.{
  ℕ, ◌+◌, ◌≤◌, ◌<◌, ◌≡◌, ◌≢◌, refl, ◌⊎◌, inl, inr, Bool, true, false, Option, none, some, List, [],
  ◌∷◌, All, arith, if◌then◌else◌,
}
use pitch_bot.Speech.Models.{
  TurnTakingState, idle, listening, agent_speaking, SpeechFrame, SpeechSegment, frame_ok,
}
use pitch_bot.Speech.TurnTaking.{
  TurnTakingConfig, TurnTakingDecision, TurnTaking, init, config_ok, accumulate, reset_utterance,
  endpoint, observe_while_listening, observe_while_agent_speaks, observe, stop,
  agent_started_speaking, agent_stopped_speaking,
}
use pitch_bot.Speech.TurnTaking.Invariant.{
  Inv, StepOk, SegmentOk, init-Inv, agent_started_speaking-Inv, agent_stopped_speaking-Inv,
}
use pitch_bot.Speech.TurnTaking.Observe.{observe-StepOk}

-- a run of buyer speech under the agent's is in progress
abbrev pub InRun : TurnTaking → Type 0
InRun t = (t.state ≡ agent_speaking) × (0 < t.barge_in_speech_ms)

abbrev pub StopOk : TurnTakingConfig → Option (Option SpeechSegment × TurnTaking) → Type 0
StopOk c none = ⊥
StopOk c (some (s, t)) = Inv c t × SegmentOk c s × (t.state ≢ listening)

-- What a caller can do: any valid frame, both notifications, and a stop outside a run.
pub data Reach (c : TurnTakingConfig) : TurnTaking → Type 0 where
  begin : Reach c init
  frame :
      {t u : TurnTaking} {d : TurnTakingDecision} (f : SpeechFrame)
      → Reach c t
      → frame_ok f ≡ true
      → observe c f t ≡ some (d, u)
      → Reach c u
  speaks : {t : TurnTaking} → Reach c t → Reach c (agent_started_speaking t)
  ends : {t : TurnTaking} → Reach c t → Reach c (agent_stopped_speaking t)
  stops :
      {t u : TurnTaking} {s : Option SpeechSegment}
      → Reach c t
      → ¬ InRun t
      → stop c t ≡ some (s, u)
      → Reach c u

module _ (c : TurnTakingConfig) (valid : config_ok c ≡ true) where
  -- Outside a run of interrupting speech, stopping the microphone fails no assertion, keeps the
  -- counters valid, leaves the listening state, and closes only a segment that fits.
  pub stop-StopOk : (t : TurnTaking) → Inv c t → ¬ InRun t → StopOk c (stop c t)
  unfolding stop
  stop-StopOk t h n = ground arith

  at_some :
      {u : TurnTaking} {d : TurnTakingDecision} {r : Option (TurnTakingDecision × TurnTaking)}
      → r ≡ some (d, u)
      → StepOk c r
      → Inv c u
  at_some e h = (rw e at h).0

  at_stop :
      {u : TurnTaking} {s : Option SpeechSegment} {r : Option (Option SpeechSegment × TurnTaking)}
      → r ≡ some (s, u)
      → StopOk c r
      → Inv c u
  at_stop e h = (rw e at h).0

  -- The counters are valid after any sequence of valid frames, notifications and stops outside a run.
  pub Reach-Inv : {t : TurnTaking} → Reach c t → Inv c t
  Reach-Inv begin = init-Inv c
  Reach-Inv (frame {t = t} f r v e) = at_some e (observe-StepOk c valid f t v (Reach-Inv r))
  Reach-Inv (speaks {t = t} r) = agent_started_speaking-Inv c valid t
  Reach-Inv (ends {t = t} r) = agent_stopped_speaking-Inv c valid t (Reach-Inv r)
  Reach-Inv (stops {t = t} r n e) = at_stop e (stop-StopOk t (Reach-Inv r) n)

  -- one frame heard while listening: the floor comes back, or the utterance is longer by the frame
  -- and still below the longest one
  listening_step :
      (t : TurnTaking) {u : TurnTaking} {d : TurnTakingDecision} (f : SpeechFrame)
      → t.state ≡ listening
      → observe c f t ≡ some (d, u)
      → (u.state ≡ idle)
        ⊎ ((u.state ≡ listening)
            × (u.speech_ms + u.silence_ms ≡ t.speech_ms + t.silence_ms + f.duration_ms)
            × (u.speech_ms + u.silence_ms < c.max_utterance_ms))
  unfolding observe observe_while_listening endpoint accumulate
  listening_step t f s e = ground arith

-- whether the floor comes back while the frames are observed
abbrev is_idle : TurnTakingState → Bool
is_idle idle = true
is_idle _ = false

pub frees_floor : TurnTakingConfig → List SpeechFrame → TurnTaking → Bool
frees_floor c [] t = false
frees_floor c (f ∷ fs) t = elim (observe c f t) [
  | none ↦ false
  | some (d, u) ↦ if is_idle u.state then true else frees_floor c fs u
]

abbrev pub total_ms : List SpeechFrame → ℕ
total_ms [] = 0
total_ms (f ∷ fs) = f.duration_ms + total_ms fs

module _ (c : TurnTakingConfig) (valid : config_ok c ≡ true) where
  observe-some :
      (f : SpeechFrame) (t : TurnTaking)
      → frame_ok f ≡ true
      → Inv c t
      → (d : TurnTakingDecision) × (u : TurnTaking) × (observe c f t ≡ some (d, u)) × Inv c u
  observe-some f t v h = go (observe c f t) refl (observe-StepOk c valid f t v h)
    where
      go :
          (r : Option (TurnTakingDecision × TurnTaking))
          → observe c f t ≡ r
          → StepOk c r
          → (d : TurnTakingDecision) × (u : TurnTaking) × (observe c f t ≡ some (d, u)) × Inv c u
      go none e k = absurd k
      go (some (d, u)) e k = (d, u, e, k.0)

  step_frees_floor :
      (f : SpeechFrame) (fs : List SpeechFrame) (t : TurnTaking)
      → frame_ok f ≡ true
      → Inv c t
      → t.state ≡ listening
      → ((u : TurnTaking)
          → Inv c u
          → u.state ≡ listening
          → u.speech_ms + u.silence_ms ≡ t.speech_ms + t.silence_ms + f.duration_ms
          → u.speech_ms + u.silence_ms < c.max_utterance_ms
          → frees_floor c fs u ≡ true)
      → frees_floor c (f ∷ fs) t ≡ true
  unfolding frees_floor
  step_frees_floor f fs t v h s rest =
      let (d, u, e, k) = observe-some f t v h in
      rw (e, frees_floor)
        (elim (listening_step c valid t f s e) [
          | inl i ↦ rw i
          | inr (l, grown, short) ↦ rw l (rest u k l grown short)
        ])

  short_stream_frees_floor :
      (fs : List SpeechFrame) (t : TurnTaking)
      → All (λ g. frame_ok g ≡ true) fs
      → Inv c t
      → t.state ≡ listening
      → t.speech_ms + t.silence_ms < c.max_utterance_ms
      → c.max_utterance_ms ≤ t.speech_ms + t.silence_ms + total_ms fs
      → frees_floor c fs t ≡ true
  short_stream_frees_floor [] t v h s short long = absurd (omega arith)
  short_stream_frees_floor (f ∷ fs) t v h s short long =
      step_frees_floor f fs t v.0 h s
        λ u k l grown less. short_stream_frees_floor fs u v.1 k l less (omega arith)

  -- With a valid configuration, take a listening state whose counters are valid, which includes that
  -- the utterance has a start. When the next frames, at least one, are valid and, speaking or silent,
  -- last together with what was heard to the longest utterance, the buyer gives the floor back while
  -- they are observed.
  pub long_stream_frees_floor :
      (f : SpeechFrame) (fs : List SpeechFrame) (t : TurnTaking)
      → All (λ g. frame_ok g ≡ true) (f ∷ fs)
      → Inv c t
      → t.state ≡ listening
      → c.max_utterance_ms ≤ t.speech_ms + t.silence_ms + total_ms (f ∷ fs)
      → frees_floor c (f ∷ fs) t ≡ true
  long_stream_frees_floor f fs t v h s long =
      step_frees_floor f fs t v.0 h s
        λ u k l grown less. short_stream_frees_floor fs u v.1 k l less (omega arith)

-- the microphone stopped, one more frame, and the microphone stopped again
abbrev pub stop_frame_stop :
    TurnTakingConfig → SpeechFrame → TurnTaking → Option (Option SpeechSegment × TurnTaking)
stop_frame_stop c f t = elim (stop c t) [
  | none ↦ none
  | some (s, u) ↦ elim (observe c f u) [ none ↦ none | some (d, w) ↦ stop c w ]
]

-- Take a valid configuration, and valid counters in the middle of a run of interrupting speech. After
-- a stop, a speech frame that completes the interruption, while the agent's speech with the frame is
-- shorter than its floor, and that lasts at least the shortest speech of a segment, opens an utterance
-- with no start: the assertion of `_close` fails at the next stop.
pub stop-InRun_fails :
    (c : TurnTakingConfig) (f : SpeechFrame) (t : TurnTaking)
    → config_ok c ≡ true
    → Inv c t
    → InRun t
    → f.is_speech ≡ true
    → c.barge_in_speech_ms ≤ t.barge_in_speech_ms + f.duration_ms
    → t.agent_speech_elapsed_ms + f.duration_ms < c.agent_floor_ms
    → c.min_speech_ms ≤ f.duration_ms
    → stop_frame_stop c f t ≡ none
unfolding stop observe observe_while_agent_speaks observe_while_listening accumulate reset_utterance
stop-InRun_fails c f t v h r sp long floor enough = ground arith
