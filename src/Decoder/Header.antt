-- ===== src/Decoder/Header.antt =====
-- `DbnDecoder::DecodeMetadata` on a stream that holds whole metadata.
use databento_cpp.Base.{
  ℕ, ◌+◌, ◌≤◌, ◌<◌, ◌≡◌, refl, ap, ◌∙◌, arith, ◌++◌, length, take, drop, length-append, ◌⊎◌,
  length-overwrite, take-append, drop-append,
}
use databento_cpp.Base.Results.{ok, overrun}
use databento_cpp.Readable.{Readable}
use databento_cpp.Buffer
use databento_cpp.Buffer.{Buffer, capacity, read_capacity, write_capacity, unread, copy_in}
use databento_cpp.Buffer.Bounds.{IsValid}
use databento_cpp.Buffer.Contents.{length-unread}
use databento_cpp.Upgrade.{Bytes}
use databento_cpp.Upgrade.Dispatch.{needs_upgrade}
use databento_cpp.Metadata.{Metadata, upgrade}
use databento_cpp.Metadata.Decode.{decode_metadata_version_and_size, decode_metadata_fields}
use databento_cpp.Decoder.{Decoder, at_read_pos, decode_metadata}
use databento_cpp.Decoder.Fill.{stream}
use databento_cpp.Decoder.Reads.{
  Took, read_exact_into-Took, read_exact_into-overrun, buffer_for_frame, frame_consumed,
}

module _ (r : Readable) where
  open r use {Stream, rest}

  -- A stream that begins with metadata: the first four bytes are in the buffer, the others and the frame
  -- that they announce are in the input.
  pub record HasMetadata (d : Decoder Stream) (version : ℕ) (frame behind : Bytes)
      (metadata : Metadata) : Type 0 where
    pub magic : Bytes
    pub more : Bytes
    pub valid : IsValid d.buffer
    pub opened : unread d.buffer ≡ magic
    pub magic_len : length magic ≡ 4
    pub more_len : length more ≡ 4
    pub input : rest d.input ≡ more ++ (frame ++ behind)
    pub announced : decode_metadata_version_and_size (magic ++ more) ≡ ok (version, length frame)
    pub fields : decode_metadata_fields version frame ≡ ok metadata
    pub room : 4 ≤ write_capacity d.buffer

  -- The frame fits behind the prelude, or is longer than the whole buffer, which then grows.
  abbrev pub FrameFits : Buffer → ℕ → Type 0
  FrameFits b size = (b.write_pos + 4 + size ≤ capacity b) ⊎ (capacity b < size)

  -- Behind the metadata: all of the frame is consumed, and what follows it is the stream.
  pub record Opened (d : Decoder Stream) (version : ℕ) (behind : Bytes) (metadata : Metadata)
      (d' : Decoder Stream) : Type 0 where
    pub valid : IsValid d'.buffer
    pub at_records : stream r d' ≡ behind
    pub grown : capacity d.buffer ≤ capacity d'.buffer
    pub version_kept : d'.version ≡ version
    pub policy_kept : d'.upgrade_policy ≡ d.upgrade_policy
    pub upgrade_known : d'.needs_upgrade ≡ needs_upgrade d.upgrade_policy version
    pub ts_out_known : d'.ts_out ≡ metadata.ts_out
    pub no_warning : d'.warnings ≡ d.warnings

  -- The prelude is in the buffer.
  prelude_read :
      {d : Decoder Stream} {version : ℕ} {frame behind : Bytes} {metadata : Metadata}
      {d1 : Decoder Stream}
      → (h : HasMetadata d version frame behind metadata) → Took r 4 d d1
      → (unread d1.buffer ≡ h.magic ++ h.more)
        × (take 8 (at_read_pos d1.buffer) ≡ h.magic ++ h.more)
        × (rest d1.input ≡ frame ++ behind)
        × (read_capacity d1.buffer ≡ 8)
  prelude_read {d} {version} {frame} {behind} {metadata} {d1} h t =
      let front : take 4 (rest d.input) ≡ h.more =
        ap (take 4) h.input ∙ take-append 4 h.more (frame ++ behind) h.more_len in
      let all : unread d1.buffer ≡ h.magic ++ h.more = t.bytes ∙ rw (h.opened, front) refl in
      let eight : read_capacity d1.buffer ≡ 8 = omega (
        arith,
        length-unread t.valid,
        ap length all,
        length-append h.magic h.more,
        h.magic_len,
        h.more_len,
      ) in
      (
        all,
        rw eight at all,
        t.left ∙ ap (drop 4) h.input ∙ drop-append 4 h.more (frame ++ behind) h.more_len,
        eight,
      )

  -- The places in the buffer after the prelude was read.
  fits_behind :
      (d : Decoder Stream) (n : ℕ) (bytes : Bytes)
      → (d.buffer.write_pos + 4 + n ≤ capacity d.buffer) ⊎ (capacity d.buffer < n)
      → let b = Buffer.fill 4 (copy_in bytes d.buffer) in
        (b.write_pos + n ≤ capacity b) ⊎ (capacity b < n)
  unfolding Buffer.fill
  fits_behind d n bytes h = ground (arith, length-overwrite d.buffer.mem d.buffer.write_pos bytes)

  -- `DecodeMetadata`, where the first four bytes are in a valid buffer with room for four more, the
  -- input begins with these four and the frame that they announce, the frame decodes to metadata,
  -- and it fits behind the prelude or is longer than the whole buffer: it returns the metadata,
  -- upgraded by the policy, knows from them whether records need an upgrade and carry a timestamp,
  -- and has consumed exactly the metadata.
  pub decode_metadata-Opened :
      (d : Decoder Stream) (version : ℕ) (frame behind : Bytes) (metadata : Metadata)
      → HasMetadata d version frame behind metadata
      → FrameFits d.buffer (length frame)
      → (d' : Decoder Stream) × (decode_metadata r d ≡ ok (upgrade d.upgrade_policy metadata, d'))
        × Opened d version behind metadata d'
  unfolding decode_metadata
  decode_metadata-Opened d version frame behind metadata h fits =
      let size = length frame in
      let enough : 4 ≤ length (rest d.input) =
        omega (arith, ap length h.input, length-append h.more (frame ++ behind), h.more_len) in
      let (in1, e1, t1) = read_exact_into-Took r 4 d h.valid h.room enough in
      let b1 = Buffer.fill 4 (copy_in (take 4 (rest d.input)) d.buffer) in
      let (all, prelude, input1, eight) = prelude_read h t1 in
      let (v2, empty, room2, grown) =
        buffer_for_frame b1 size t1.valid eight (fits_behind d size (take 4 (rest d.input)) fits) in
      let d1 : Decoder Stream = record d {
        version = version;
        needs_upgrade = needs_upgrade d.upgrade_policy version;
        input = in1;
        buffer = Buffer.reserve size (Buffer.consume 8 b1);
      } in
      let enough2 : size ≤ length (rest in1) =
        omega (arith, ap length input1, length-append frame behind) in
      let (in2, e2, t2) = read_exact_into-Took r size d1 v2 room2 enough2 in
      let framed : unread d1.buffer ++ take size (rest in1) ≡ frame =
        rw (empty, input1) (take-append size frame behind refl) in
      let (v3, none_left, same_size) =
        frame_consumed (Buffer.fill size (copy_in (take size (rest in1)) d1.buffer)) size t2.valid
          (ap length (t2.bytes ∙ framed)) in
      let whole = t2.bytes ∙ framed in
      (
        record d1 {
          input = in2;
          buffer =
              Buffer.shift
                (Buffer.consume size (Buffer.fill size (copy_in (take size (rest in1)) d1.buffer)));
          ts_out = metadata.ts_out;
        },
        rw (e1, prelude, h.announced, e2, whole, h.fields) refl,
        record {
          valid = v3;
          at_records =
              rw none_left (t2.left ∙ ap (drop size) input1 ∙ drop-append size frame behind refl);
          grown = omega (arith, grown, same_size, t1.size, t2.size);
          version_kept = refl;
          policy_kept = refl;
          upgrade_known = refl;
          ts_out_known = refl;
          no_warning = refl;
        },
      )

  frame_no_room :
      (d : Decoder Stream) (n : ℕ) (bytes : Bytes)
      → 4 ≤ write_capacity d.buffer
      → capacity d.buffer < d.buffer.write_pos + 4 + n
      → n ≤ capacity d.buffer
      → write_capacity
          (Buffer.reserve n (Buffer.consume 8 (Buffer.fill 4 (copy_in bytes d.buffer))))
        < n
  unfolding Buffer.reserve Buffer.consume Buffer.fill
  frame_no_room d n bytes room long short =
      ground (arith, length-overwrite d.buffer.mem d.buffer.write_pos bytes)

  -- `DecodeMetadata`, where the first four bytes are in a valid buffer with room for four more, the
  -- input begins with these four and the frame that they announce, the frame decodes to metadata,
  -- but it does not fit behind the prelude while it is no longer than the whole buffer: `Reserve`
  -- does nothing, and the frame is written past the end of the buffer.
  pub decode_metadata-overrun :
      (d : Decoder Stream) (version : ℕ) (frame behind : Bytes) (metadata : Metadata)
      → HasMetadata d version frame behind metadata
      → capacity d.buffer < d.buffer.write_pos + 4 + length frame
      → length frame ≤ capacity d.buffer
      → decode_metadata r d ≡ overrun
  unfolding decode_metadata
  decode_metadata-overrun d version frame behind metadata h long short =
      let size = length frame in
      let enough : 4 ≤ length (rest d.input) =
        omega (arith, ap length h.input, length-append h.more (frame ++ behind), h.more_len) in
      let (in1, e1, t1) = read_exact_into-Took r 4 d h.valid h.room enough in
      let b1 = Buffer.fill 4 (copy_in (take 4 (rest d.input)) d.buffer) in
      let (all, prelude, input1, eight) = prelude_read h t1 in
      let d1 : Decoder Stream = record d {
        version = version;
        needs_upgrade = needs_upgrade d.upgrade_policy version;
        input = in1;
        buffer = Buffer.reserve size (Buffer.consume 8 b1);
      } in
      let over =
        read_exact_into-overrun r size d1
          (frame_no_room d size (take 4 (rest d.input)) h.room long short) in
      rw (e1, prelude, h.announced, over) refl
