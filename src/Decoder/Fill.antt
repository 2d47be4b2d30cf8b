-- ===== src/Decoder/Fill.antt =====
-- `FillBuffer`, and how the loop of `DecodeRecord` that calls it ends.
use databento_cpp.Base.{
  ℕ, zero, suc, ◌+◌, ◌*◌, ◌≤◌, ◌<◌, ◌≡◌, refl, sym, ap, ◌∙◌, arith, Bool, true, false, [], ◌∷◌,
  ◌++◌, length, take, if◌then◌else◌, length-append, length-overwrite, append_assoc,
}
use databento_cpp.Readable.{Readable}
use databento_cpp.Buffer
use databento_cpp.Buffer.{Buffer, capacity, read_capacity, write_capacity, unread, copy_in}
use databento_cpp.Buffer.Bounds.{IsValid, shift_for_space-IsValid, capacity-shift_for_space}
use databento_cpp.Buffer.Contents.{length-unread, unread-shift_for_space, unread-copy_in}
use databento_cpp.Buffer.Calls.{filled_IsValid, capacity-filled}
use databento_cpp.Metadata.{VersionUpgradePolicy}
use databento_cpp.Upgrade.{Bytes, record_size, head_or_zero, length_multiplier}
use databento_cpp.Decoder.{Decoder, max_record_len, at_read_pos, fill_buffer}

-- After shifting there is room, unless the unread bytes fill the whole buffer.
pub shifted_room :
    {b : Buffer}
    → IsValid b
    → read_capacity b < capacity b
    → 0 < write_capacity (Buffer.shift_for_space max_record_len b)
unfolding Buffer.shift_for_space Buffer.shift
shifted_room {b} v h = ground (arith, length-overwrite b.mem 0 (unread b))

-- The first unread byte is the first byte at the read position.
head_or_zero-take : (n : ℕ) (xs : Bytes) → 0 < n → head_or_zero (take n xs) ≡ head_or_zero xs
head_or_zero-take zero xs h = absurd (omega arith)
head_or_zero-take (suc n) [] h = refl
head_or_zero-take (suc n) (x ∷ xs) h = refl

pub record_size-append : (xs ys : Bytes) → 0 < length xs → record_size (xs ++ ys) ≡ record_size xs
record_size-append [] ys h = absurd (omega arith)
record_size-append (x ∷ xs) ys h = refl

pub record_size-unread :
    (b : Buffer) → 0 < read_capacity b → record_size (unread b) ≡ record_size (at_read_pos b)
record_size-unread b h =
    ap (λ n. n * length_multiplier) (head_or_zero-take (read_capacity b) (at_read_pos b) h)

pub nil_of_length : (xs : Bytes) → length xs ≡ 0 → xs ≡ []
nil_of_length [] e = refl
nil_of_length (x ∷ xs) e = absurd (omega arith)

module _ (r : Readable) where
  open r use {Stream, rest, read_some, read_some_in_order, read_some_bounded, read_some_progress}

  -- The bytes that the decoder has still to hand out.
  abbrev pub stream : Decoder Stream → Bytes
  stream d = unread d.buffer ++ rest d.input

  -- What stays as the metadata left it.
  abbrev pub settings : Decoder Stream → ℕ × VersionUpgradePolicy × Bool × Bool
  settings d = (d.version, d.upgrade_policy, d.ts_out, d.needs_upgrade)

  -- The buffer is larger than any record.
  pub record IsReady (d : Decoder Stream) : Type 0 where
    pub valid : IsValid d.buffer
    pub large : 1020 < capacity d.buffer

  -- What a call of `FillBuffer` does where less than a whole record is unread.
  pub record Filled (d : Decoder Stream) (n : ℕ) (d' : Decoder Stream) : Type 0 where
    pub ready : IsReady d'
    pub same_stream : stream d' ≡ stream d
    pub more : read_capacity d'.buffer ≡ read_capacity d.buffer + n
    pub ended : n ≡ 0 → rest d'.input ≡ []
    pub same_settings : settings d' ≡ settings d
    pub same_warnings : d'.warnings ≡ d.warnings

  pub fill_buffer-Filled :
      (d : Decoder Stream)
      → IsReady d
      → read_capacity d.buffer ≤ 1020
      → Filled d (fill_buffer r d).0 (fill_buffer r d).1
  unfolding fill_buffer
  fill_buffer-Filled d h small =
      let b = Buffer.shift_for_space max_record_len d.buffer in
      let v = shift_for_space-IsValid max_record_len h.valid in
      let bytes = (read_some (write_capacity b) d.input).0 in
      let room : 0 < write_capacity b = shifted_room h.valid (omega (arith, h.large)) in
      let fits = read_some_bounded (write_capacity b) d.input in
      let input' = (read_some (write_capacity b) d.input).1 in
      let in_order = read_some_in_order (write_capacity b) d.input in
      let same = unread-shift_for_space max_record_len h.valid in
      record {
        ready = record {
          valid = filled_IsValid bytes v fits;
          large = omega (
            arith,
            capacity-filled (length bytes) bytes b,
            capacity-shift_for_space max_record_len d.buffer,
            h.large,
          );
        };
        same_stream =
            ap (λ u. u ++ rest input') (unread-copy_in bytes v fits)
            ∙ append_assoc (unread b) bytes (rest input')
            ∙ ap (λ u. unread b ++ u) in_order
            ∙ ap (λ u. u ++ rest d.input) same;
        more = omega (
          arith,
          length-unread (filled_IsValid bytes v fits),
          length-unread v,
          length-unread h.valid,
          ap length (unread-copy_in bytes v fits),
          length-append (unread b) bytes,
          ap length same,
        );
        ended = λ e.
            let none_read = nil_of_length bytes e in
            ap (λ u. u ++ rest input') (sym none_read)
            ∙ in_order
            ∙ read_some_progress (write_capacity b) d.input room none_read;
        same_settings = refl;
        same_warnings = refl;
      }

  -- How the loop of `DecodeRecord` ends: with the whole record in the buffer, or at the end of an
  -- input that holds less.
  pub record Settled (d : Decoder Stream) (whole : Bool) (d' : Decoder Stream) : Type 0 where
    pub ready : IsReady d'
    pub same_stream : stream d' ≡ stream d
    pub some_unread : 0 < read_capacity d'.buffer
    pub held : whole ≡ true → record_size (stream d) ≤ read_capacity d'.buffer
    pub short : whole ≡ false → length (stream d) < record_size (stream d)
    pub warned : d'.warnings ≡ (if whole then d.warnings else length (stream d) ∷ d.warnings)
    pub same_settings : settings d' ≡ settings d

  -- The first byte of the stream is the first one of the buffer.
  pub record_size-stream :
      (d : Decoder Stream)
      → IsReady d
      → 0 < read_capacity d.buffer
      → record_size (stream d) ≡ record_size (at_read_pos d.buffer)
  record_size-stream d h pos =
      record_size-append (unread d.buffer) (rest d.input) (omega (arith, length-unread h.valid))
      ∙ record_size-unread d.buffer pos
