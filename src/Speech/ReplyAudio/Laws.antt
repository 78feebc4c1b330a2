-- ===== src/Speech/ReplyAudio/Laws.antt =====
-- What reply_audio.py yields: the audio it was given, whole samples at a time, within its bounds.
use mathlib.Core.List.{append-nil, append_assoc}
use pitch_bot.Prelude.{
  ℕ, zero, suc, ◌+◌, ◌-◌, ◌%◌, ◌≤◌, ◌<◌, ◌≡◌, refl, sym, ap, ◌∙◌, inl, inr, Bool, true, false, List,
  [], ◌∷◌, ◌++◌, length, length-append, take, take-append-drop, length-take, length-drop, All, ltb,
  leb, Bool-cases, leb→le, arith,
}
use pitch_bot.Speech.ReplyAudio.{
  FrameLimits, limits_ok, Chunk, ReplyAudioFrame, ReplyAudio, Progress, running, returned, refused,
  take_frame, drain,
}

-- the audio of frames, and of chunks, in order
abbrev pub audio : List ReplyAudioFrame → List ℕ
audio [] = []
audio (f ∷ fs) = f.payload ++ audio fs

abbrev pub sound : List Chunk → List ℕ
sound [] = []
sound (c ∷ cs) = c.payload ++ sound cs

-- A frame that the constructor of `ReplyAudioFrame` accepts, within the size bound, and numbered.
pub record FrameOk (l : FrameLimits) (f : ReplyAudioFrame) : Type 0 where
  pub some_audio : 0 < length f.payload
  pub whole_samples : length f.payload % 2 ≡ 0
  pub bounded : length f.payload ≤ l.frame_bytes

abbrev pub Numbered : ℕ → List ReplyAudioFrame → Type 0
Numbered n [] = Unit
Numbered n (f ∷ fs) = (f.sequence ≡ n) × Numbered (suc n) fs

audio-append :
    (fs : List ReplyAudioFrame) (f : ReplyAudioFrame) → audio (fs ++ f ∷ []) ≡ audio fs ++ f.payload
audio-append [] f = append-nil f.payload
audio-append (g ∷ fs) f =
    ap (λ b. g.payload ++ b) (audio-append fs f) ∙ sym (append_assoc g.payload (audio fs) f.payload)

All-append :
    (l : FrameLimits) (fs : List ReplyAudioFrame) (f : ReplyAudioFrame)
    → All (FrameOk l) fs
    → FrameOk l f
    → All (FrameOk l) (fs ++ f ∷ [])
All-append l [] f h k = (k, tt)
All-append l (g ∷ fs) f h k = (h.0, All-append l fs f h.1 k)

Numbered-append :
    (n : ℕ) (fs : List ReplyAudioFrame) (f : ReplyAudioFrame)
    → Numbered n fs
    → f.sequence ≡ n + length fs
    → Numbered n (fs ++ f ∷ [])
Numbered-append n [] f h k = (omega arith, tt)
Numbered-append n (g ∷ fs) f h k = (h.0, Numbered-append (suc n) fs f h.1 (omega arith))

-- what holds of the stream when `heard` is the audio that the synthesizer has given
pub record Inv (l : FrameLimits) (heard : List ℕ) (a : ReplyAudio) : Type 0 where
  pub kept : a.truncated ≡ false
  pub nothing_lost : audio a.yielded ++ a.buffer ≡ heard
  pub each : All (FrameOk l) a.yielded
  pub numbered : Numbered 0 a.yielded
  pub frames_counted : a.frame_count ≡ length a.yielded
  pub bytes_counted : a.byte_count ≡ length (audio a.yielded)
  pub capped : a.byte_count ≤ l.max_bytes
  pub whole : length a.buffer % 2 ≡ 0

-- what was yielded is the beginning of the audio given, and the rest is lost
pub record Yields (l : FrameLimits) (heard : List ℕ) (a : ReplyAudio) : Type 0 where
  pub lost : List ℕ
  pub prefix : audio a.yielded ++ lost ≡ heard
  pub each : All (FrameOk l) a.yielded
  pub numbered : Numbered 0 a.yielded
  pub capped : length (audio a.yielded) ≤ l.max_bytes

-- what holds once the cap has cut the reply short
pub record CutShort (l : FrameLimits) (heard : List ℕ) (a : ReplyAudio) : Type 0 where
  pub said : a.truncated ≡ true
  pub yields : Yields l heard a
  pub no_room : l.max_bytes < length (audio a.yielded) + l.frame_bytes

module _ (l : FrameLimits) (valid : limits_ok l ≡ true) where
  pub Inv-Yields : (heard : List ℕ) (a : ReplyAudio) → Inv l heard a → Yields l heard a
  Inv-Yields heard a h = record {
    lost = a.buffer;
    prefix = h.nothing_lost;
    each = h.each;
    numbered = h.numbered;
    capped = omega arith;
  }

  frame_pos : 0 < l.frame_bytes
  frame_pos = ground arith

  room :
      (size : ℕ) (a : ReplyAudio)
      → a.byte_count + size ≤ l.max_bytes
      → ltb l.max_bytes (a.byte_count + size) ≡ false
  room size a h = ground arith

  no_room :
      (size : ℕ) (a : ReplyAudio)
      → l.max_bytes < a.byte_count + size
      → ltb l.max_bytes (a.byte_count + size) ≡ true
  no_room size a h = ground arith

  taken_size :
      (size : ℕ) (a : ReplyAudio) → size ≤ length a.buffer → length (take size a.buffer) ≡ size
  taken_size size a h = omega (arith, length-take size a.buffer)

  taken :
      (size : ℕ) (heard : List ℕ) (a : ReplyAudio)
      → Inv l heard a
      → 0 < size
      → size % 2 ≡ 0
      → size ≤ l.frame_bytes
      → size ≤ length a.buffer
      → a.byte_count + size ≤ l.max_bytes
      → ((take_frame l size a).0 ≡ true) × Inv l heard (take_frame l size a).1
  unfolding take_frame
  taken size heard a h p e s b c =
      let n = taken_size size a b in
      rw (room size a c) (
        refl,
        record {
          kept = h.kept;
          nothing_lost = rw (audio-append, append_assoc, take-append-drop) h.nothing_lost;
          each =
              All-append l a.yielded _ h.each (record {
                some_audio = omega arith;
                whole_samples = rw n e;
                bounded = omega arith;
              });
          numbered = Numbered-append 0 a.yielded _ h.numbered (omega arith);
          frames_counted = omega (arith, length-append a.yielded (_ ∷ []));
          bytes_counted = rw (audio-append, length-append, n, h.bytes_counted);
          capped = c;
          whole = omega (arith, length-drop size a.buffer);
        },
      )

  cut_short :
      (size : ℕ) (heard : List ℕ) (a : ReplyAudio)
      → Inv l heard a
      → size ≤ l.frame_bytes
      → l.max_bytes < a.byte_count + size
      → ((take_frame l size a).0 ≡ false) × CutShort l heard (take_frame l size a).1
  unfolding take_frame
  cut_short size heard a h s c =
      let y = Inv-Yields heard a h in
      rw (no_room size a c) (
        refl,
        record {
          said = refl;
          yields = record {
            lost = y.lost;
            prefix = y.prefix;
            each = y.each;
            numbered = y.numbered;
            capped = y.capped;
          };
          no_room = omega arith;
        },
      )

  -- one cut: a frame more, or the end of the reply
  abbrev pub CutOk : List ℕ → Bool → ReplyAudio → Type 0
  CutOk heard true b = Inv l heard b
  CutOk heard false b = CutShort l heard b

  pub take_frame-CutOk :
      (size : ℕ) (heard : List ℕ) (a : ReplyAudio)
      → Inv l heard a
      → 0 < size
      → size % 2 ≡ 0
      → size ≤ l.frame_bytes
      → size ≤ length a.buffer
      → CutOk heard (take_frame l size a).0 (take_frame l size a).1
  take_frame-CutOk size heard a h p e s b =
      elim (Bool-cases (leb (a.byte_count + size) l.max_bytes)) [
        | inl r ↦ let (t, k) = taken size heard a h p e s b (ground arith) in rw t k
        | inr r ↦ let (t, k) = cut_short size heard a h s (ground arith) in rw t k
      ]

  pub taken_shorter :
      (size : ℕ) (a : ReplyAudio)
      → (take_frame l size a).0 ≡ true
      → length (take_frame l size a).1.buffer ≡ length a.buffer - size
  unfolding take_frame
  taken_shorter size a h = ground (arith, length-drop size a.buffer)

  abbrev pub DrainOk : List ℕ → Progress → ReplyAudio → Type 0
  DrainOk heard running b = Inv l heard b × (length b.buffer < l.frame_bytes)
  DrainOk heard returned b = CutShort l heard b
  DrainOk heard refused b = ⊥

  pub drain-DrainOk :
      (fuel : ℕ) (heard : List ℕ) (a : ReplyAudio)
      → Inv l heard a
      → length a.buffer < fuel
      → DrainOk heard (drain l fuel a).0 (drain l fuel a).1
  unfolding drain
  drain-DrainOk zero heard a h f = absurd (omega arith)
  drain-DrainOk (suc fuel) heard a h f =
      let size : ℕ = l.frame_bytes in
      let b = (take_frame l size a).1 in
      let ih = drain-DrainOk fuel heard b in
      elim (Bool-cases (leb size (length a.buffer))) [
        | inr e ↦ rw e (h, ground arith)
        | inl e ↦
            let ok =
              take_frame-CutOk size heard a h (ground arith) (ground arith) (omega arith)
                (ground arith) in
            elim (Bool-cases (take_frame l size a).0) [
              | inl t ↦
                  rw (e, t)
                    (ih (rw t at ok)
                      (omega (arith, taken_shorter size a t, leb→le _ _ e, frame_pos)))
              | inr t ↦ rw (e, t) (rw t at ok)
            ]
      ]
