-- ===== src/Speech/Models.antt =====
-- src/pitchbot/speech/models.py: what a frame, a finished utterance and an interruption carry.
-- A `datetime` is an instant, counted in microseconds; the check that it has a time zone, and those
-- that a count is not negative, are met by its being a ℕ.
use pitch_bot.Prelude.{ℕ, ◌+◌, Bool, ◌&&◌, leb}

abbrev pub max_frame_duration_ms : ℕ
max_frame_duration_ms = 2000

abbrev pub max_utterance_limit_ms : ℕ
max_utterance_limit_ms = 60000

abbrev pub max_silence_ms : ℕ
max_silence_ms = 5000

abbrev pub max_agent_floor_ms : ℕ
max_agent_floor_ms = 120000

pub data TurnTakingState : Type 0 where
  idle listening agent_speaking : TurnTakingState

pub data EndpointReason : Type 0 where
  silence max_duration stopped : EndpointReason

pub record SpeechFrame : Type 0 where
  pub sequence : ℕ
  pub byte_count : ℕ
  pub duration_ms : ℕ
  pub is_speech : Bool
  pub captured_at : ℕ

-- SpeechFrame.__post_init__: whether the frame is accepted
abbrev pub frame_ok : SpeechFrame → Bool
frame_ok f = leb 1 f.duration_ms && leb f.duration_ms max_frame_duration_ms

pub record SpeechSegment : Type 0 where
  pub frame_count : ℕ
  pub speech_ms : ℕ
  pub silence_ms : ℕ
  pub byte_count : ℕ
  pub reason : EndpointReason
  pub started_at : ℕ
  pub ended_at : ℕ
  pub trailing_silence_ms : ℕ

abbrev pub segment_duration_ms : SpeechSegment → ℕ
segment_duration_ms s = s.speech_ms + s.silence_ms

pub record BargeIn : Type 0 where
  pub at_sequence : ℕ
  pub speech_ms : ℕ
  pub detected_at : ℕ
