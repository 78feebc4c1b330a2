-- ===== src/Speech/TurnTaking/Tests.antt =====
-- Runs of turn_taking.py with the default thresholds.
use pitch_bot.Prelude.{ℕ, ◌≡◌, refl, Bool, true, false, none, some, [], ◌∷◌, arith}
use pitch_bot.Speech.Models.{listening, agent_speaking, SpeechFrame}
use pitch_bot.Speech.TurnTaking.{
  TurnTaking, default_config, init, start, observe_while_listening, observe,
}
use pitch_bot.Speech.TurnTaking.Invariant.{Inv, StepOk}
use pitch_bot.Speech.TurnTaking.Observe.{observe-StepOk}
use pitch_bot.Speech.TurnTaking.Runs.{
  frees_floor, long_stream_frees_floor, stop_frame_stop, stop-InRun_fails,
}

abbrev heard : Bool → ℕ → SpeechFrame
heard speech ms = record {
  sequence = 7;
  byte_count = 640;
  duration_ms = ms;
  is_speech = speech;
  captured_at = 1000;
}

abbrev opened : TurnTaking
opened = record init {
  state = listening;
  speech_ms = 1500;
  frame_count = 1;
  byte_count = 640;
  started_at = some 1000;
  last_at = some 1000;
}

opened-Inv : Inv default_config opened
opened-Inv = ground arith

-- the agent speaks, and the buyer has spoken 150 ms over it
abbrev overlapped : TurnTaking
overlapped = record opened {
  state = agent_speaking;
  speech_ms = 150;
  barge_in_speech_ms = 150;
  agent_speech_elapsed_ms = 150;
}

overlapped-Inv : Inv default_config overlapped
overlapped-Inv = ground arith

observe_opens :
    observe default_config (heard true 1500) init
    ≡ some (
      record {
        state = listening;
        segment = none;
        barge_in = none;
        capture = true;
        discarded = false;
      },
      opened,
    )
unfolding observe observe_while_listening start
observe_opens = refl

observe-StepOk_example : StepOk default_config (observe default_config (heard false 700) opened)
observe-StepOk_example = observe-StepOk default_config refl (heard false 700) opened refl opened-Inv

long_stream_frees_floor_example :
    frees_floor default_config
      (heard false 400 ∷ heard false 2000 ∷ [])
      (record opened { silence_ms = 17900 })
    ≡ true
long_stream_frees_floor_example =
    long_stream_frees_floor default_config refl (heard false 400) (heard false 2000 ∷ [])
      (record opened { silence_ms = 17900 }) (refl, (refl, tt)) (ground arith) refl (omega arith)

stop-InRun_fails_example : stop_frame_stop default_config (heard true 250) overlapped ≡ none
stop-InRun_fails_example =
    stop-InRun_fails default_config (heard true 250) overlapped refl overlapped-Inv
      (refl, omega arith) refl (omega arith) (omega arith) (omega arith)
