-- ===== src/Speech/TurnTaking/Invariant.antt =====
-- What holds of the counters of turn_taking.py between two frames, and that each method keeps it.
use pitch_bot.Prelude.{ℕ, ◌+◌, ◌≤◌, ◌<◌, max, ◌≡◌, true, false, Option, none, some, is_none, arith}
use pitch_bot.Speech.Models.{
  idle, listening, agent_speaking, EndpointReason, silence, max_duration, stopped, SpeechSegment,
  max_frame_duration_ms, segment_duration_ms,
}
use pitch_bot.Speech.TurnTaking.{
  TurnTakingConfig, TurnTakingDecision, TurnTaking, init, config_ok, agent_started_speaking,
  agent_stopped_speaking,
}

-- nothing of an utterance is held
pub record IsClean (t : TurnTaking) : Type 0 where
  pub no_speech : t.speech_ms ≡ 0
  pub no_silence : t.silence_ms ≡ 0
  pub no_trailing : t.trailing_silence_ms ≡ 0
  pub no_frames : t.frame_count ≡ 0
  pub no_bytes : t.byte_count ≡ 0
  pub not_started : t.started_at ≡ none
  pub no_last : t.last_at ≡ none

-- an utterance has begun
pub record IsStarted (t : TurnTaking) : Type 0 where
  pub started : is_none t.started_at ≡ false
  pub seen : is_none t.last_at ≡ false
  pub counted : 0 < t.frame_count
  pub trailing_part : t.trailing_silence_ms ≤ t.silence_ms

-- the longest an utterance can be before the frame that closes it
abbrev pub limit_ms : TurnTakingConfig → ℕ
limit_ms c = max c.max_utterance_ms (c.barge_in_speech_ms + max_frame_duration_ms)

pub record IsOpen (c : TurnTakingConfig) (t : TurnTaking) : Type 0 where
  pub begun : IsStarted t
  pub pausing : t.trailing_silence_ms < c.end_silence_ms
  pub short : t.speech_ms + t.silence_ms < limit_ms c
  pub no_run : t.barge_in_speech_ms ≡ 0

-- a run of buyer speech under the agent's, not yet an interruption
pub record IsRun (c : TurnTakingConfig) (t : TurnTaking) : Type 0 where
  pub begun : IsStarted t
  pub same : t.speech_ms ≡ t.barge_in_speech_ms
  pub no_silence : t.silence_ms ≡ 0
  pub below : t.barge_in_speech_ms < c.barge_in_speech_ms

pub record Inv (c : TurnTakingConfig) (t : TurnTaking) : Type 0 where
  pub idle_clean : t.state ≡ idle → IsClean t
  pub idle_run : t.state ≡ idle → t.barge_in_speech_ms ≡ 0
  pub listening_open : t.state ≡ listening → IsOpen c t
  pub floor_held : t.state ≡ agent_speaking → t.agent_speech_elapsed_ms < c.agent_floor_ms
  pub quiet_clean : t.state ≡ agent_speaking → t.barge_in_speech_ms ≡ 0 → IsClean t
  pub run_open : t.state ≡ agent_speaking → 0 < t.barge_in_speech_ms → IsRun c t

-- why the segment was closed, read from its counts
abbrev pub ReasonFits : TurnTakingConfig → EndpointReason → SpeechSegment → Type 0
ReasonFits c silence s =
    (c.end_silence_ms ≤ s.trailing_silence_ms) × (segment_duration_ms s < c.max_utterance_ms)
ReasonFits c max_duration s = c.max_utterance_ms ≤ segment_duration_ms s
ReasonFits c stopped s = s.trailing_silence_ms < c.end_silence_ms

pub record SegmentFits (c : TurnTakingConfig) (s : SpeechSegment) : Type 0 where
  pub long_enough : c.min_speech_ms ≤ s.speech_ms
  pub bounded : segment_duration_ms s < limit_ms c + max_frame_duration_ms
  pub has_frames : 0 < s.frame_count
  pub trailing_part : s.trailing_silence_ms ≤ s.silence_ms
  pub reason_fits : ReasonFits c s.reason s

abbrev pub SegmentOk : TurnTakingConfig → Option SpeechSegment → Type 0
SegmentOk c none = Unit
SegmentOk c (some s) = SegmentFits c s

-- No assertion failed, the invariant holds again, and the decision tells the state and a segment
-- that fits.
abbrev pub StepOk : TurnTakingConfig → Option (TurnTakingDecision × TurnTaking) → Type 0
StepOk c none = ⊥
StepOk c (some (d, t)) = Inv c t × (d.state ≡ t.state) × SegmentOk c d.segment

pub init-Inv : (c : TurnTakingConfig) → Inv c init
init-Inv c = ground arith

module _ (c : TurnTakingConfig) (valid : config_ok c ≡ true) where
  pub agent_started_speaking-Inv : (t : TurnTaking) → Inv c (agent_started_speaking t)
  unfolding agent_started_speaking
  agent_started_speaking-Inv t = ground arith

  pub agent_stopped_speaking-Inv : (t : TurnTaking) → Inv c t → Inv c (agent_stopped_speaking t)
  unfolding agent_stopped_speaking
  agent_stopped_speaking-Inv t h = ground arith
