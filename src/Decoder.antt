-- ===== src/Decoder.antt =====
-- src/dbn_decoder.cpp: `DbnDecoder`, which reads a stream of bytes through a `Buffer` and hands out
-- its metadata and its records.
pub mod Fill
pub mod Loop
pub mod Records
pub mod Next
pub mod Reads
pub mod Header
pub mod Open
mod OpenRuns
pub mod Runs
use Prim.Native.Nat.{bit_and}
use databento_cpp.Base.{
  ℕ, zero, suc, ◌+◌, ◌-◌, ◌≡◌, Bool, true, false, not, Option, none, some, List, [], ◌∷◌, ◌++◌,
  length, take, drop, slice, ltb, ◌==◌, if◌then◌else◌, un_le,
}
use databento_cpp.Base.Results
use databento_cpp.Base.Results.{
  Result, ok, err, overrun, ◌>>=◌, dbn_response, legacy_dbz, unknown_input, zstd_not_dbn,
}
use databento_cpp.Readable.{Readable}
use databento_cpp.Buffer
use databento_cpp.Buffer.{
  Buffer, capacity, read_capacity, write_capacity, unread, copy_in, default_buf_size,
}
use databento_cpp.Metadata.{
  Metadata, VersionUpgradePolicy, magic_size, metadata_prelude_size, upgrade,
}
use databento_cpp.Metadata.Decode.{
  has_prefix, decode_metadata_version_and_size, decode_metadata_fields,
}
use databento_cpp.Upgrade.{Bytes, record_size}
use databento_cpp.Upgrade.Dispatch.{decode_record_compat, needs_upgrade}

abbrev pub zstd_magic_number : ℕ
zstd_magic_number = 0xfd2f_b528

abbrev pub zstd_skippable_frame : ℕ
zstd_skippable_frame = 0x184d_2a50

abbrev pub max_record_len : ℕ
max_record_len = 520 + 8

-- `warnings` is what the log receiver was told of partial records: how many bytes each had.
pub record Decoder (Stream : Type 0) : Type 0 where
  pub version : ℕ
  pub upgrade_policy : VersionUpgradePolicy
  pub needs_upgrade : Bool
  pub ts_out : Bool
  pub input : Stream
  pub buffer : Buffer
  pub warnings : List ℕ

-- The memory from `ReadBegin()` on.
abbrev pub at_read_pos : Buffer → Bytes
at_read_pos b = drop b.read_pos b.mem

-- Enough fuel for the loop of `DecodeRecord`: a record has at most 1020 bytes, and each read but the
-- last delivers at least one.
abbrev pub decode_fuel : ℕ
decode_fuel = 1021

module _ (r : Readable) where
  open r use {Stream, read_some, read_exact}

  unfoldable pub new : VersionUpgradePolicy → Stream → Decoder Stream
  new policy input = record {
    version = 0;
    upgrade_policy = policy;
    needs_upgrade = true;
    ts_out = false;
    input = input;
    buffer = Buffer.new default_buf_size;
    warnings = [];
  }

  -- `input_->ReadExact(buffer_.WriteBegin(), n); buffer_.Fill(n)`, which writes past the buffer
  -- unless there is room for `n` bytes.
  unfoldable pub read_exact_into : ℕ → Decoder Stream → Result (Decoder Stream)
  unfolding Buffer.fill
  read_exact_into n d =
      let read = read_exact n d.input in
      if ltb (write_capacity d.buffer) n
      then overrun
      else read >>= λ (bytes, input).
          ok (record d { input = input; buffer = Buffer.fill n (copy_in bytes d.buffer) })

  -- `DbnDecoder::DetectCompression`
  unfoldable pub detect_compression : Decoder Stream → Result (Bool × Decoder Stream)
  detect_compression d = do
    d' ← read_exact_into magic_size d
    let magic = take magic_size (at_read_pos d'.buffer)
    let x = un_le magic
    if has_prefix magic
        then ok (false, d')
        else if x == zstd_magic_number
        then ok (true, d')
        else if bit_and x zstd_skippable_frame == zstd_skippable_frame
        then err (dbn_response legacy_dbz)
        else err (dbn_response unknown_input)

  -- The constructor of `DbnDecoder`. `zstd_stream` stands for a `ZstdDecodeStream` over the input,
  -- made with the bytes that the buffer holds, which are then consumed.
  unfoldable pub open_decoder :
      (List ℕ → Stream → Stream) → VersionUpgradePolicy → Stream → Result (Decoder Stream)
  open_decoder zstd_stream policy input = do
    (compressed, d) ← detect_compression (new policy input)
    let decompressing = record d {
      input = zstd_stream (unread d.buffer) d.input;
      buffer = Buffer.consume (read_capacity d.buffer) d.buffer;
    }
    let inner = read_exact_into magic_size decompressing >>= λ d'.
        if has_prefix (take 3 (at_read_pos d'.buffer))
        then ok d'
        else err (dbn_response zstd_not_dbn)
    if compressed then inner else ok d

  -- `DbnDecoder::DecodeMetadata`
  unfoldable pub decode_metadata : Decoder Stream → Result (Metadata × Decoder Stream)
  decode_metadata d = do
    d1 ← read_exact_into (metadata_prelude_size - magic_size) d
    (version, size) ←
        decode_metadata_version_and_size (take metadata_prelude_size (at_read_pos d1.buffer))
    let buffer = Buffer.reserve size (Buffer.consume metadata_prelude_size d1.buffer)
    d2 ← read_exact_into size (record d1 {
      version = version;
      needs_upgrade = needs_upgrade d1.upgrade_policy version;
      buffer = buffer;
    })
    metadata ← decode_metadata_fields version (unread d2.buffer)
    ok (
      upgrade d2.upgrade_policy metadata,
      record d2 { buffer = Buffer.shift (Buffer.consume size d2.buffer); ts_out = metadata.ts_out },
    )

  -- `DbnDecoder::FillBuffer`
  unfoldable pub fill_buffer : Decoder Stream → ℕ × Decoder Stream
  fill_buffer d =
      let b = Buffer.shift_for_space max_record_len d.buffer in
      let (bytes, input) = read_some (write_capacity b) d.input in
      let n = length bytes in
      (n, record d { input = input; buffer = Buffer.fill n (copy_in bytes b) })

  -- The log receiver is told of a partial record.
  unfoldable pub warn_partial : Decoder Stream → Decoder Stream
  warn_partial d =
      let n = read_capacity d.buffer in
      if ltb 0 n then record d { warnings = n ∷ d.warnings } else d

  -- The `while` loop of `DecodeRecord`: whether the buffer holds the whole record in the end. `none`
  -- if the fuel runs out.
  unfoldable pub fill_record : ℕ → Decoder Stream → Option (Bool × Decoder Stream)
  fill_record zero d = none
  fill_record (suc fuel) d =
      let (n, d') = fill_buffer d in
      let more = fill_record fuel d' in
      if ltb (read_capacity d.buffer) (record_size (at_read_pos d.buffer))
      then if n == 0 then some (false, warn_partial d') else more
      else some (true, d)

  -- The end of `DecodeRecord`, on a buffer that holds the record.
  unfoldable pub take_record : Decoder Stream → Result (Option Bytes × Decoder Stream)
  take_record d =
      let rec = at_read_pos d.buffer in
      let d' = record d { buffer = Buffer.consume (record_size rec) d.buffer } in
      if d.needs_upgrade
      then (decode_record_compat d.version d.upgrade_policy d.ts_out rec >>= λ rec'.
          ok (some rec', d'))
      else ok (some rec, d')

  unfoldable pub finish_record :
      Option (Bool × Decoder Stream) → Option (Result (Option Bytes × Decoder Stream))
  finish_record none = none
  finish_record (some (true, d)) = some (take_record d)
  finish_record (some (false, d)) = some (ok (none, d))

  -- `DbnDecoder::DecodeRecord`: the record, as the memory from its header on, or no record at the
  -- end of the input.
  unfoldable pub decode_record : Decoder Stream → Option (Result (Option Bytes × Decoder Stream))
  unfolding finish_record
  decode_record d =
      let (n, d') = fill_buffer d in
      let filled = finish_record (fill_record decode_fuel d') in
      let held = finish_record (fill_record decode_fuel d) in
      if read_capacity d.buffer == 0 then if n == 0 then some (ok (none, d')) else filled else held
