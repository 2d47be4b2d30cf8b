-- ===== src/Decoder/Reads.antt =====
-- Reads of an exact length into the decoder's buffer, and the buffer around the metadata's frame.
use databento_cpp.Base.{
  ℕ, ◌+◌, ◌≤◌, ◌<◌, ◌≡◌, refl, sym, ◌∙◌, arith, [], ◌++◌, length, take, drop, le→ltb, lt→ltb,
  length-take, ◌⊎◌, replicate, length-replicate, length-overwrite, drop-all,
}
use databento_cpp.Base.Results.{ok, overrun}
use databento_cpp.Readable.{Readable}
use databento_cpp.Buffer
use databento_cpp.Buffer.{Buffer, capacity, read_capacity, write_capacity, unread, copy_in}
use databento_cpp.Buffer.Bounds.{
  IsValid, reserve-IsValid, consume-IsValid, capacity-reserve_eq, shift-IsValid, capacity-shift,
}
use databento_cpp.Buffer.Contents.{length-unread, unread-copy_in, unread-reserve, unread-shift}
use databento_cpp.Buffer.Calls.{filled_IsValid, capacity-filled}
use databento_cpp.Decoder.{Decoder, read_exact_into}
use databento_cpp.Decoder.Records.{unread-consume}

-- A buffer whose `n` unread bytes are consumed has none.
unread_consumed :
    (b : Buffer) (n : ℕ) → IsValid b → read_capacity b ≡ n → unread (Buffer.consume n b) ≡ []
unread_consumed b n v e =
    unread-consume b n (omega arith) ∙ drop-all n (unread b) (omega (arith, length-unread v))

-- Room for the frame once the prelude is consumed.
frame_room :
    (b : Buffer) (n : ℕ)
    → IsValid b
    → read_capacity b ≡ 8
    → (b.write_pos + n ≤ capacity b) ⊎ (capacity b < n)
    → n ≤ write_capacity (Buffer.reserve n (Buffer.consume 8 b))
unfolding Buffer.reserve Buffer.consume
frame_room b n v eight h = ground (
  arith,
  length-overwrite (replicate n 0) 0 (unread (record b { read_pos = b.read_pos + 8 })),
  length-replicate n (let z : ℕ = 0 in z),
)

pub buffer_for_frame :
    (b : Buffer) (n : ℕ)
    → IsValid b
    → read_capacity b ≡ 8
    → (b.write_pos + n ≤ capacity b) ⊎ (capacity b < n)
    → let b' = Buffer.reserve n (Buffer.consume 8 b) in
      IsValid b' × (unread b' ≡ []) × (n ≤ write_capacity b') × (capacity b ≤ capacity b')
unfolding Buffer.consume
buffer_for_frame b n v eight h =
    let v' = consume-IsValid 8 v (omega (arith, eight)) in
    (
      reserve-IsValid n v',
      unread-reserve n v' ∙ unread_consumed b 8 v eight,
      frame_room b n v eight h,
      omega (arith, capacity-reserve_eq n (Buffer.consume 8 b)),
    )

-- The buffer once the frame is consumed.
pub frame_consumed :
    (b : Buffer) (n : ℕ)
    → IsValid b
    → length (unread b) ≡ n
    → let b' = Buffer.shift (Buffer.consume n b) in
      IsValid b' × (unread b' ≡ []) × (capacity b' ≡ capacity b)
unfolding Buffer.consume
frame_consumed b n v e =
    let len : read_capacity b ≡ n = sym (length-unread v) ∙ e in
    let v' = consume-IsValid n v (omega (arith, len)) in
    (
      shift-IsValid v',
      unread-shift v' ∙ unread_consumed b n v len,
      capacity-shift (Buffer.consume n b),
    )

module _ (r : Readable) where
  open r use {Stream, rest, read_exact, read_exact_enough}

  -- A read of exactly `n` bytes into a buffer with room for them.
  pub record Took (n : ℕ) (d d' : Decoder Stream) : Type 0 where
    pub buffer' : d'.buffer ≡ Buffer.fill n (copy_in (take n (rest d.input)) d.buffer)
    pub valid : IsValid d'.buffer
    pub bytes : unread d'.buffer ≡ unread d.buffer ++ take n (rest d.input)
    pub left : rest d'.input ≡ drop n (rest d.input)
    pub size : capacity d'.buffer ≡ capacity d.buffer

  pub read_exact_into-Took :
      (n : ℕ) (d : Decoder Stream)
      → IsValid d.buffer
      → n ≤ write_capacity d.buffer
      → n ≤ length (rest d.input)
      → (input : Stream) × (read_exact_into r n d
          ≡ ok (record d {
            input = input;
            buffer = Buffer.fill n (copy_in (take n (rest d.input)) d.buffer);
          }))
        × Took n d (record d {
          input = input;
          buffer = Buffer.fill n (copy_in (take n (rest d.input)) d.buffer);
        })
  unfolding read_exact_into
  read_exact_into-Took n d v room enough =
      let (input, e, left) = read_exact_enough n d.input enough in
      let bytes = take n (rest d.input) in
      let len : length bytes ≡ n = omega (arith, length-take n (rest d.input)) in
      (
        input,
        rw (le→ltb (write_capacity d.buffer) n room, e) refl,
        record {
          buffer' = refl;
          valid = rw len at (filled_IsValid bytes v (omega (arith, len)));
          bytes = rw len at (unread-copy_in bytes v (omega (arith, len)));
          left = left;
          size = capacity-filled n bytes d.buffer;
        },
      )

  pub read_exact_into-overrun :
      (n : ℕ) (d : Decoder Stream) → write_capacity d.buffer < n → read_exact_into r n d ≡ overrun
  unfolding read_exact_into
  read_exact_into-overrun n d h = rw (lt→ltb (write_capacity d.buffer) n h) refl
