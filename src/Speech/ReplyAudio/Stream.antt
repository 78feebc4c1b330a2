-- ===== src/Speech/ReplyAudio/Stream.antt =====
-- A whole reply of reply_audio.py: all of the audio, or the part that fits, and why.
use mathlib.Core.List.{append-nil, append_assoc}
use pitch_bot.Prelude.{
  ℕ, suc, ◌+◌, ◌%◌, ◌<◌, ◌≡◌, refl, sym, ap, ◌∙◌, ◌⊎◌, inl, inr, true, false, List, [], ◌∷◌, ◌++◌,
  length, length-append, is_empty, Bool-cases, arith,
}
use pitch_bot.Speech.ReplyAudio.{
  FrameLimits, limits_ok, Chunk, ReplyAudio, fresh, Progress, running, returned, refused,
  take_frame, adopt_framing, push_chunk, finish, push_chunks, frames,
}
use pitch_bot.Speech.ReplyAudio.Laws.{
  audio, sound, Inv, Yields, CutShort, Inv-Yields, take_frame-CutOk, taken_shorter, DrainOk,
  drain-DrainOk,
}

-- How a reply of the given audio ends: yielded whole, cut short where the next frame would pass the
-- cap, or refused with the part before yielded.
abbrev pub StreamOk : FrameLimits → List ℕ → Progress → ReplyAudio → Type 0
StreamOk l total running a = ⊥
StreamOk l total returned a =
    Yields l total a
    × (((a.truncated ≡ false) × (audio a.yielded ≡ total))
        ⊎ ((a.truncated ≡ true) × (l.max_bytes < length (audio a.yielded) + l.frame_bytes)))
StreamOk l total refused a = Yields l total a

more_lost :
    (l : FrameLimits) (heard rest : List ℕ) (a : ReplyAudio)
    → Yields l heard a
    → Yields l (heard ++ rest) a
more_lost l heard rest a y = record {
  lost = y.lost ++ rest;
  prefix = sym (append_assoc (audio a.yielded) y.lost rest) ∙ ap (λ b. b ++ rest) y.prefix;
  each = y.each;
  numbered = y.numbered;
  capped = y.capped;
}

cut_stream :
    (l : FrameLimits) (heard rest : List ℕ) (a : ReplyAudio)
    → CutShort l heard a
    → StreamOk l (heard ++ rest) returned a
cut_stream l heard rest a c = (more_lost l heard rest a c.yields, inr (c.said, c.no_room))

module _ (l : FrameLimits) (valid : limits_ok l ≡ true) where
  adopt_framing-Inv :
      (c : Chunk) (heard : List ℕ) (a : ReplyAudio)
      → Inv l heard a
      → Inv l heard (adopt_framing l c a).1
  unfolding adopt_framing
  adopt_framing-Inv c heard a h = ground arith

  adopted_whole :
      (c : Chunk) (a : ReplyAudio) → (adopt_framing l c a).0 ≡ true → length c.payload % 2 ≡ 0
  unfolding adopt_framing
  adopted_whole c a h = ground arith

  filled-Inv :
      (c : Chunk) (heard : List ℕ) (a : ReplyAudio)
      → Inv l heard a
      → length c.payload % 2 ≡ 0
      → Inv l (heard ++ c.payload) (record a { buffer = a.buffer ++ c.payload })
  filled-Inv c heard a h e = record {
    kept = h.kept;
    nothing_lost =
        sym (append_assoc (audio a.yielded) a.buffer c.payload)
        ∙ ap (λ b. b ++ c.payload) h.nothing_lost;
    each = h.each;
    numbered = h.numbered;
    frames_counted = h.frames_counted;
    bytes_counted = h.bytes_counted;
    capped = h.capped;
    whole = omega (arith, length-append a.buffer c.payload);
  }

  abbrev ChunkOk : List ℕ → List ℕ → Progress → ReplyAudio → Type 0
  ChunkOk heard more running b = Inv l (heard ++ more) b × (length b.buffer < l.frame_bytes)
  ChunkOk heard more returned b = CutShort l (heard ++ more) b
  ChunkOk heard more refused b = Yields l heard b

  drained :
      (heard more : List ℕ) (p : Progress) (b : ReplyAudio)
      → DrainOk l valid (heard ++ more) p b
      → ChunkOk heard more p b
  drained heard more running b h = h
  drained heard more returned b h = h
  drained heard more refused b h = absurd h

  push_chunk-ChunkOk :
      (c : Chunk) (heard : List ℕ) (a : ReplyAudio)
      → Inv l heard a
      → ChunkOk heard c.payload (push_chunk l c a).0 (push_chunk l c a).1
  unfolding push_chunk
  push_chunk-ChunkOk c heard a h =
      let b = (adopt_framing l c a).1 in
      let k = adopt_framing-Inv c heard a h in
      elim (Bool-cases (adopt_framing l c a).0) [
        | inl e ↦ rw e (
            drained heard c.payload _ _ (
              drain-DrainOk l valid (suc (length (b.buffer ++ c.payload))) (heard ++ c.payload)
                (record b { buffer = b.buffer ++ c.payload })
                (filled-Inv c heard b k (adopted_whole c a e)) (omega arith)))
        | inr e ↦ rw e (Inv-Yields l valid heard b k)
      ]

  complete :
      (heard : List ℕ) (a : ReplyAudio)
      → Inv l heard a
      → is_empty a.buffer ≡ true
      → StreamOk l heard returned a
  complete heard a h e =
      let gone : a.buffer ≡ [] = ground arith in
      (
        Inv-Yields l valid heard a h,
        inl (
          h.kept,
          sym (append-nil (audio a.yielded))
              ∙ ap (λ b. audio a.yielded ++ b) (sym gone)
              ∙ h.nothing_lost,
        ),
      )

  emptied : (b : List ℕ) → length b ≡ 0 → is_empty b ≡ true
  emptied [] h = refl
  emptied (x ∷ b) h = absurd (omega arith)

  filled : (b : List ℕ) → is_empty b ≡ false → 0 < length b
  filled [] h = cc
  filled (x ∷ b) h = omega arith

  finished :
      (heard : List ℕ) (a : ReplyAudio)
      → Inv l heard a
      → length a.buffer < l.frame_bytes
      → StreamOk l heard returned (finish l a)
  unfolding finish
  finished heard a h s =
      let size : ℕ = length a.buffer in
      elim (Bool-cases (is_empty a.buffer)) [
        | inl e ↦ rw e (complete heard a h e)
        | inr e ↦
            let ok =
              take_frame-CutOk l valid size heard a h (filled a.buffer e) h.whole (omega arith)
                (omega arith) in
            rw e (elim (Bool-cases (take_frame l size a).0) [
              | inl t ↦
                  complete heard (take_frame l size a).1 (rw t at ok)
                    (emptied _ (omega (arith, taken_shorter l valid size a t)))
              | inr t ↦
                  let c : CutShort l heard (take_frame l size a).1 = rw t at ok in
                  (c.yields, inr (c.said, c.no_room))
            ])
      ]

  push_chunks-StreamOk :
      (cs : List Chunk) (heard : List ℕ) (a : ReplyAudio)
      → Inv l heard a
      → length a.buffer < l.frame_bytes
      → StreamOk l (heard ++ sound cs) (push_chunks l cs a).0 (push_chunks l cs a).1
  unfolding push_chunks
  push_chunks-StreamOk [] heard a h s = rw append-nil (finished heard a h s)
  push_chunks-StreamOk (c ∷ cs) heard a h s =
      go (push_chunk l c a).0 (push_chunk l c a).1 (push_chunk-ChunkOk c heard a h)
        (push_chunks-StreamOk cs (heard ++ c.payload) (push_chunk l c a).1)
    where
      after : Progress → ReplyAudio → Progress × ReplyAudio
      after p b = elim p [
        | running ↦ push_chunks l cs b
        | returned ↦ (returned, b)
        | refused ↦ (refused, b)
      ]

      go :
          (p : Progress) (b : ReplyAudio)
          → ChunkOk heard c.payload p b
          → (Inv l (heard ++ c.payload) b
              → length b.buffer < l.frame_bytes
              → StreamOk l
                  ((heard ++ c.payload) ++ sound cs)
                  (push_chunks l cs b).0
                  (push_chunks l cs b).1)
          → StreamOk l (heard ++ (c.payload ++ sound cs)) (after p b).0 (after p b).1
      go running b k ih = rw (← append_assoc) (ih k.0 k.1)
      go returned b k ih = rw (← append_assoc) (cut_stream l (heard ++ c.payload) (sound cs) b k)
      go refused b k ih = more_lost l heard (c.payload ++ sound cs) b k

  fresh-Inv : Inv l [] fresh
  fresh-Inv = record {
    kept = refl;
    nothing_lost = refl;
    each = tt;
    numbered = tt;
    frames_counted = refl;
    bytes_counted = refl;
    capped = omega arith;
    whole = refl;
  }

  -- A reply's frames carry the audio that was synthesised, from its beginning and in order, each frame
  -- of whole samples and within the frame size, numbered from 0, in all within the byte cap. If the
  -- generator returns, it has yielded all of the audio, or the cap had no room for a whole frame more.
  pub frames-StreamOk : (cs : List Chunk) → StreamOk l (sound cs) (frames l cs).0 (frames l cs).1
  unfolding frames
  frames-StreamOk cs = push_chunks-StreamOk cs [] fresh fresh-Inv (ground arith)
