-- ===== src/Speech/ReplyAudio.antt =====
-- src/pitchbot/speech/reply_audio.py: one reply's audio, cut again into bounded frames.
-- The chunks that the synthesizer yields are an argument, a byte is a number, and the frames that
-- the generator has yielded are kept in order. The text and the language only reach the synthesizer.
pub mod Laws
pub mod Stream
mod Tests
use pitch_bot.Prelude.{
  ℕ, zero, suc, ◌+◌, ◌%◌, ◌*◌, Bool, true, false, not, ◌&&◌, ◌||◌, String, string_eq, List, [], ◌∷◌,
  ◌++◌, length, take, drop, ltb, leb, ◌==◌, if◌then◌else◌, is_empty,
}

abbrev pub bytes_per_sample : ℕ
bytes_per_sample = 2

abbrev pub max_frame_bytes : ℕ
max_frame_bytes = 262144

-- what the constructor is given
pub record FrameLimits : Type 0 where
  pub frame_bytes : ℕ
  pub max_bytes : ℕ

abbrev pub default_limits : FrameLimits
default_limits = record { frame_bytes = 32768; max_bytes = 2 * 1024 * 1024 }

-- the checks of ReplyAudio.__init__
abbrev pub limits_ok : FrameLimits → Bool
limits_ok l =
    leb 1 l.frame_bytes
    && (leb l.frame_bytes max_frame_bytes
        && ((l.frame_bytes % bytes_per_sample == 0) && leb 1 l.max_bytes))

pub record Chunk : Type 0 where
  pub payload : List ℕ
  pub sample_rate_hz : ℕ
  pub media_type : String

pub record ReplyAudioFrame : Type 0 where
  pub payload : List ℕ
  pub sequence : ℕ
  pub sample_rate_hz : ℕ
  pub media_type : String

-- the fields of `ReplyAudio`, the buffer of `frames`, and what has been yielded
pub record ReplyAudio : Type 0 where
  pub frame_count : ℕ
  pub byte_count : ℕ
  pub sample_rate_hz : ℕ
  pub media_type : String
  pub truncated : Bool
  pub buffer : List ℕ
  pub yielded : List ReplyAudioFrame

abbrev pub fresh : ReplyAudio
fresh = record {
  frame_count = 0;
  byte_count = 0;
  sample_rate_hz = 0;
  media_type = "";
  truncated = false;
  buffer = [];
  yielded = [];
}

-- how the generator goes on: it may take the next chunk, it has returned, or it has raised the
-- `PermanentAdapterError` of `_adopt_framing`
pub data Progress : Type 0 where
  running returned refused : Progress

module _ (limits : FrameLimits) where
  -- `_take`, and the `yield` of the frame that it cuts; the test is false when it gives `None`
  unfoldable pub take_frame : ℕ → ReplyAudio → Bool × ReplyAudio
  take_frame size a =
      if ltb limits.max_bytes (a.byte_count + size)
      then (false, record a { truncated = true; buffer = [] })
      else (
        true,
        record a {
          frame_count = a.frame_count + 1;
          byte_count = a.byte_count + size;
          buffer = drop size a.buffer;
          yielded =
              a.yielded
              ++ record {
                payload = take size a.buffer;
                sequence = a.frame_count;
                sample_rate_hz = a.sample_rate_hz;
                media_type = a.media_type;
              }
                ∷ [];
        },
      )

  -- `while len(buffer) >= self._frame_bytes`; each round shortens the buffer
  unfoldable pub drain : ℕ → ReplyAudio → Progress × ReplyAudio
  drain zero a = (running, a)
  drain (suc fuel) a =
      let (cut, b) = take_frame limits.frame_bytes a in
      let rest = drain fuel b in
      if leb limits.frame_bytes (length a.buffer)
      then (if cut then rest else (returned, b))
      else (running, a)

  -- `_adopt_framing`: whether the chunk is accepted, with the framing fixed by the first one
  unfoldable pub adopt_framing : Chunk → ReplyAudio → Bool × ReplyAudio
  adopt_framing c a =
      if not (length c.payload % bytes_per_sample == 0)
      then (false, a)
      else if a.sample_rate_hz == 0
      then (true, record a { sample_rate_hz = c.sample_rate_hz; media_type = c.media_type })
      else if not (c.sample_rate_hz == a.sample_rate_hz)
      then (false, a)
      else if not (string_eq.beq c.media_type a.media_type)
      then (false, a)
      else (true, a)

  -- one round of the `async for`
  unfoldable pub push_chunk : Chunk → ReplyAudio → Progress × ReplyAudio
  push_chunk c a =
      let (ok, b) = adopt_framing c a in
      let filled = record b { buffer = b.buffer ++ c.payload } in
      if ok then drain (suc (length filled.buffer)) filled else (refused, b)

  -- the tail, once the synthesizer has no more
  unfoldable pub finish : ReplyAudio → ReplyAudio
  finish a = if is_empty a.buffer then a else (take_frame (length a.buffer) a).1

  unfoldable pub push_chunks : List Chunk → ReplyAudio → Progress × ReplyAudio
  push_chunks [] a = (returned, finish a)
  push_chunks (c ∷ cs) a =
      let (p, b) = push_chunk c a in
      elim p [ running ↦ push_chunks cs b | returned ↦ (returned, b) | refused ↦ (refused, b) ]

  unfoldable pub frames : List Chunk → Progress × ReplyAudio
  frames cs = push_chunks cs fresh
