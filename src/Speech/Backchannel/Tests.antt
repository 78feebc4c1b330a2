-- ===== src/Speech/Backchannel/Tests.antt =====
-- A slow turn in English that goes on in Hindi, for backchannel.py.
use pitch_bot.Prelude.{◌≡◌, refl, arith, false, [], ◌∷◌, map}
use pitch_bot.Conversation.Language.{LanguageCode, english, hindi}
use pitch_bot.Speech.Backchannel.{
  phrases_of, Wait, new_backchannel, work_floor_ms, work_target_ms, begin_turn, item_at, due,
  fill_targets, fill,
}
use pitch_bot.Speech.Backchannel.Laws.{fill_says_both}

abbrev slow : LanguageCode → Wait
slow language = record {
  elapsed_before_ms = 0;
  reply_ready = false;
  elapsed_after_ms = 10;
  spoken = language;
}

slow_turn_filled :
    map (λ f. f.work_ms) ((fill 700 (slow english) (slow hindi) new_backchannel).0)
    ≡ 200 ∷ 3800 ∷ []
unfolding fill fill_targets begin_turn due phrases_of work_target_ms work_floor_ms
slow_turn_filled = refl

fill_says_both_example :
    map (λ f. f.phrase) ((fill 700 (slow english) (slow hindi) new_backchannel).0)
    ≡ "Hmm." ∷ "देखता हूँ।" ∷ []
unfolding phrases_of item_at
fill_says_both_example =
    fill_says_both 700 (slow english) (slow hindi) new_backchannel _ _ refl (omega arith) refl refl
      refl refl
