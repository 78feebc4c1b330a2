-- ===== src/Storage/Suppression/Tests.antt =====
-- An opt-out of one channel, of all, and its end.
use Prim.Native.String.{String}
use pitch_bot.Prelude.{
  ◌≡◌, ◌≢◌, ◌||◌, refl, true, false, Bool, some, List, [], ◌∷◌, arith, string_eq,
}
use pitch_bot.Storage.Models.{empty_database}
use pitch_bot.Storage.Suppression.{suppress, latest_state, is_suppressed}
use pitch_bot.Storage.Suppression.Laws.{Call, run, replay, nothing, run_refines}

abbrev same_text : String → String
same_text s = s

abbrev call_of : String → Bool → Call
call_of channel suppressed = record {
  suppression_id = 1;
  lead_id = 7;
  channel = channel;
  suppressed = suppressed;
  reason = "asked";
  at = 5;
}

abbrev calls : List Call
calls = call_of "voice" true ∷ call_of "all" true ∷ call_of "all" false ∷ []

voice_stays_suppressed :
    is_suppressed same_text 7 "voice" (run same_text same_text calls empty_database) ≡ some true
unfolding run suppress is_suppressed latest_state
voice_stays_suppressed = refl

voice_named : same_text "voice" ≢ ""
voice_named h = ground (arith, (string_eq.beq_iff "voice" "").1 h)

run_refines_example :
    is_suppressed same_text 7 "voice" (run same_text same_text calls empty_database)
    ≡ some (
        replay same_text same_text calls nothing 7 "all"
        || replay same_text same_text calls nothing 7 "voice")
run_refines_example = run_refines same_text same_text calls 7 "voice" voice_named
