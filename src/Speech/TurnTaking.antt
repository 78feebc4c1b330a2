-- ===== src/Speech/TurnTaking.antt =====
-- src/pitchbot/speech/turn_taking.py: who holds the floor, and when an utterance ends.
-- A method of `TurnTaking` returns the new counters; `none` is the `AssertionError` of `_close`.
pub mod Invariant
pub mod Observe
pub mod Runs
mod Tests
use pitch_bot.Prelude.{
  ℕ, ◌+◌, Bool, true, false, not, ◌&&◌, Option, none, some, ltb, leb, ◌==◌, if◌then◌else◌,
}
use pitch_bot.Speech.Models.{
  TurnTakingState, idle, listening, agent_speaking, EndpointReason, silence, max_duration, stopped,
  SpeechFrame, SpeechSegment, BargeIn, max_utterance_limit_ms, max_silence_ms, max_agent_floor_ms,
}

pub record TurnTakingConfig : Type 0 where
  pub min_speech_ms : ℕ
  pub end_silence_ms : ℕ
  pub max_utterance_ms : ℕ
  pub barge_in_speech_ms : ℕ
  pub agent_floor_ms : ℕ

abbrev pub default_config : TurnTakingConfig
default_config = record {
  min_speech_ms = 200;
  end_silence_ms = 700;
  max_utterance_ms = 20000;
  barge_in_speech_ms = 300;
  agent_floor_ms = 30000;
}

abbrev within : ℕ → ℕ → Bool
within limit n = leb 1 n && leb n limit

-- TurnTakingConfig.__post_init__: whether the thresholds are accepted
abbrev pub config_ok : TurnTakingConfig → Bool
config_ok c =
    within max_utterance_limit_ms c.min_speech_ms
    && (within max_silence_ms c.end_silence_ms
        && (within max_utterance_limit_ms c.max_utterance_ms
            && (within max_utterance_limit_ms c.barge_in_speech_ms
                && (within max_agent_floor_ms c.agent_floor_ms
                    && leb c.min_speech_ms c.max_utterance_ms))))

pub record TurnTakingDecision : Type 0 where
  pub state : TurnTakingState
  pub segment : Option SpeechSegment
  pub barge_in : Option BargeIn
  pub capture : Bool
  pub discarded : Bool

abbrev pub decision : TurnTakingState → Bool → Bool → TurnTakingDecision
decision s c d = record { state = s; segment = none; barge_in = none; capture = c; discarded = d }

pub record TurnTaking : Type 0 where
  pub state : TurnTakingState
  pub speech_ms : ℕ
  pub silence_ms : ℕ
  pub trailing_silence_ms : ℕ
  pub frame_count : ℕ
  pub byte_count : ℕ
  pub started_at : Option ℕ
  pub last_at : Option ℕ
  pub barge_in_speech_ms : ℕ
  pub agent_speech_elapsed_ms : ℕ

abbrev pub init : TurnTaking
init = record {
  state = idle;
  speech_ms = 0;
  silence_ms = 0;
  trailing_silence_ms = 0;
  frame_count = 0;
  byte_count = 0;
  started_at = none;
  last_at = none;
  barge_in_speech_ms = 0;
  agent_speech_elapsed_ms = 0;
}

unfoldable pub reset_utterance : TurnTaking → TurnTaking
reset_utterance t = record t {
  speech_ms = 0;
  silence_ms = 0;
  trailing_silence_ms = 0;
  frame_count = 0;
  byte_count = 0;
  started_at = none;
  last_at = none;
}

unfoldable pub release_floor : TurnTaking → TurnTaking
unfolding reset_utterance
release_floor t =
    reset_utterance (record t { state = idle; barge_in_speech_ms = 0; agent_speech_elapsed_ms = 0 })

unfoldable pub accumulate : SpeechFrame → TurnTaking → TurnTaking
accumulate f t =
    let u = record t {
      frame_count = t.frame_count + 1;
      byte_count = t.byte_count + f.byte_count;
      last_at = some f.captured_at;
    } in
    if f.is_speech
    then record u { speech_ms = t.speech_ms + f.duration_ms; trailing_silence_ms = 0 }
    else record u {
      silence_ms = t.silence_ms + f.duration_ms;
      trailing_silence_ms = t.trailing_silence_ms + f.duration_ms;
    }

unfoldable pub start : SpeechFrame → TurnTaking → TurnTaking
unfolding accumulate
start f t = accumulate f (record t { started_at = some f.captured_at })

-- the segment that `_close` builds once its assertion has passed
abbrev segment_of : TurnTaking → EndpointReason → ℕ → ℕ → SpeechSegment
segment_of t r started ended = record {
  frame_count = t.frame_count;
  speech_ms = t.speech_ms;
  silence_ms = t.silence_ms;
  byte_count = t.byte_count;
  reason = r;
  started_at = started;
  ended_at = ended;
  trailing_silence_ms = t.trailing_silence_ms;
}

abbrev close_at :
    TurnTaking → EndpointReason → Option ℕ → Option ℕ → Option (SpeechSegment × TurnTaking)
close_at t r (some started) (some ended) =
    some (segment_of t r started ended, record (reset_utterance t) { state = idle })
close_at t r _ _ = none

unfoldable pub close : EndpointReason → TurnTaking → Option (SpeechSegment × TurnTaking)
unfolding reset_utterance
close r t = close_at t r t.started_at t.last_at

-- `TurnTakingDecision(state=IDLE, segment=self._close(reason), capture=True)`
abbrev closing : Option (SpeechSegment × TurnTaking) → Option (TurnTakingDecision × TurnTaking)
closing none = none
closing (some (s, t)) = some (record (decision idle true false) { segment = some s }, t)

-- an utterance given up without a segment
abbrev abandon : TurnTaking → Option (TurnTakingDecision × TurnTaking)
abandon t = some (decision idle false true, record (reset_utterance t) { state = idle })

abbrev with_discarded :
    Bool → Option (TurnTakingDecision × TurnTaking) → Option (TurnTakingDecision × TurnTaking)
with_discarded stale none = none
with_discarded stale (some (d, t)) = some (if stale then record d { discarded = true } else d, t)

module _ (config : TurnTakingConfig) where
  -- the part of `_observe_while_listening` behind `self._accumulate(frame)`
  unfoldable pub endpoint : TurnTaking → Option (TurnTakingDecision × TurnTaking)
  unfolding close
  endpoint t =
      if leb config.max_utterance_ms (t.speech_ms + t.silence_ms)
      then (if ltb t.speech_ms config.min_speech_ms
          then abandon t
          else closing (close max_duration t))
      else if ltb t.trailing_silence_ms config.end_silence_ms
      then some (decision t.state true false, t)
      else if ltb t.speech_ms config.min_speech_ms
      then abandon t
      else closing (close silence t)

  abbrev listen :
      TurnTakingState → SpeechFrame → TurnTaking → Option (TurnTakingDecision × TurnTaking)
  listen idle f t =
      if f.is_speech
      then some (decision listening true false, start f (record t { state = listening }))
      else some (decision idle false false, t)
  listen _ f t = endpoint (accumulate f t)

  unfoldable pub observe_while_listening :
      SpeechFrame → TurnTaking → Option (TurnTakingDecision × TurnTaking)
  observe_while_listening f t = listen t.state f t

  -- the barge-in, reported once the run is long enough
  abbrev interrupt : SpeechFrame → TurnTaking → Option (TurnTakingDecision × TurnTaking)
  interrupt f t =
      if ltb t.barge_in_speech_ms config.barge_in_speech_ms
      then some (decision t.state true false, t)
      else some (
        record (decision listening true false) {
          barge_in = some (record {
            at_sequence = f.sequence;
            speech_ms = t.barge_in_speech_ms;
            detected_at = f.captured_at;
          });
        },
        record t { barge_in_speech_ms = 0; agent_speech_elapsed_ms = 0; state = listening },
      )

  unfoldable pub observe_while_agent_speaks :
      SpeechFrame → TurnTaking → Option (TurnTakingDecision × TurnTaking)
  observe_while_agent_speaks f t =
      let u = record t { agent_speech_elapsed_ms = t.agent_speech_elapsed_ms + f.duration_ms } in
      if leb config.agent_floor_ms u.agent_speech_elapsed_ms
      then with_discarded (ltb 0 u.barge_in_speech_ms) (observe_while_listening f (release_floor u))
      else if not f.is_speech
      then (if u.barge_in_speech_ms == 0
          then some (decision u.state false false, u)
          else some
              (decision u.state false true, reset_utterance (record u { barge_in_speech_ms = 0 })))
      else let v = if u.barge_in_speech_ms == 0 then start f u else accumulate f u in
        interrupt f (record v { barge_in_speech_ms = v.barge_in_speech_ms + f.duration_ms })

  abbrev observe_in :
      TurnTakingState → SpeechFrame → TurnTaking → Option (TurnTakingDecision × TurnTaking)
  observe_in agent_speaking f t = observe_while_agent_speaks f t
  observe_in _ f t = observe_while_listening f t

  unfoldable pub observe : SpeechFrame → TurnTaking → Option (TurnTakingDecision × TurnTaking)
  observe f t = observe_in t.state f t

  abbrev stop_in : TurnTakingState → TurnTaking → Option (Option SpeechSegment × TurnTaking)
  stop_in listening t =
      if ltb t.speech_ms config.min_speech_ms
      then some (none, record (reset_utterance t) { state = idle })
      else elim (close stopped t) [ none ↦ none | some (s, u) ↦ some (some s, u) ]
  stop_in agent_speaking t = some (none, reset_utterance t)
  stop_in idle t = some (none, record (reset_utterance t) { state = idle })

  unfoldable pub stop : TurnTaking → Option (Option SpeechSegment × TurnTaking)
  unfolding close
  stop t = stop_in t.state t

unfoldable pub agent_started_speaking : TurnTaking → TurnTaking
unfolding reset_utterance
agent_started_speaking t = record (reset_utterance t) {
  state = agent_speaking;
  barge_in_speech_ms = 0;
  agent_speech_elapsed_ms = 0;
}

abbrev stopped_speaking : TurnTakingState → TurnTaking → TurnTaking
stopped_speaking agent_speaking t = release_floor t
stopped_speaking _ t = t

unfoldable pub agent_stopped_speaking : TurnTaking → TurnTaking
unfolding release_floor
agent_stopped_speaking t = stopped_speaking t.state t
