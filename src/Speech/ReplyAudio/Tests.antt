-- ===== src/Speech/ReplyAudio/Tests.antt =====
-- A reply of ten bytes in frames of four, for reply_audio.py.
use pitch_bot.Prelude.{◌≡◌, refl, true, List, [], ◌∷◌}
use pitch_bot.Speech.ReplyAudio.{
  FrameLimits, Chunk, take_frame, drain, adopt_framing, push_chunk, finish, push_chunks, frames,
}
use pitch_bot.Speech.ReplyAudio.Laws.{audio, sound}
use pitch_bot.Speech.ReplyAudio.Stream.{StreamOk, frames-StreamOk}

abbrev fours : FrameLimits
fours = record { frame_bytes = 4; max_bytes = 8 }

abbrev reply : List Chunk
reply =
    record {
      payload = 1 ∷ 2 ∷ 3 ∷ 4 ∷ 5 ∷ 6 ∷ [];
      sample_rate_hz = 22050;
      media_type = "audio/pcm";
    }
    ∷ record { payload = 7 ∷ 8 ∷ 9 ∷ 10 ∷ []; sample_rate_hz = 22050; media_type = "audio/pcm" }
    ∷ []

frames_cut_short :
    (audio (frames fours reply).1.yielded ≡ 1 ∷ 2 ∷ 3 ∷ 4 ∷ 5 ∷ 6 ∷ 7 ∷ 8 ∷ [])
    × ((frames fours reply).1.truncated ≡ true)
unfolding frames push_chunks push_chunk adopt_framing drain take_frame finish
frames_cut_short = (refl, refl)

frames-StreamOk_example : StreamOk fours (sound reply) (frames fours reply).0 (frames fours reply).1
frames-StreamOk_example = frames-StreamOk fours refl reply
