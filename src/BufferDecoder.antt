-- ===== src/BufferDecoder.antt =====
-- src/detail/dbn_buffer_decoder.cpp and include/databento/detail/dbn_buffer_decoder.hpp:
-- `DbnBufferDecoder`, which is handed compressed bytes in chunks of any size and calls back with the
-- metadata and the records as soon as it has them.
pub mod Session
pub mod Whole
pub mod Steps
pub mod Behind
pub mod States
pub mod Reads
pub mod Loop
pub mod Chunks
pub mod Delivery
pub mod Hang
pub mod Zstd
mod Runs
use databento_cpp.Base.{
  ℕ, zero, suc, ◌+◌, ◌≤◌, ◌≡◌, Bool, true, false, Option, none, some, List, [], ◌∷◌, ◌++◌, length,
  take, ltb, ◌==◌, if◌then◌else◌,
}
use databento_cpp.Base.Results.{Result, ok, err, overrun, ◌>>=◌}
use databento_cpp.Buffer
use databento_cpp.Buffer.{Buffer, read_capacity, write_capacity, unread, copy_in, default_buf_size}
use databento_cpp.Upgrade.{Bytes, record_size}
use databento_cpp.Upgrade.Dispatch.{decode_record_compat, needs_upgrade}
use databento_cpp.Metadata.{Metadata, VersionUpgradePolicy, metadata_prelude_size, upgrade}
use databento_cpp.Metadata.Decode.{decode_metadata_version_and_size, decode_metadata_fields}
use databento_cpp.Decoder.{at_read_pos, max_record_len}
use databento_cpp.Store.{KeepGoing, continue, stop, RecordCallback}

-- What the decoder relies on of a `ZstdDecodeStream` over a buffer of compressed bytes that `write_all`
-- appends to. `rest s ahead` is what the stream has still to deliver once the compressed bytes `ahead`
-- are written too. A read delivers some of it in order; it may deliver nothing before the end.
pub record ZstdStream : Type 1 where
  pub Stream : Type 0
  pub read_some : ℕ → Stream → Bytes × Stream
  pub write_all : List ℕ → Stream → Stream
  pub rest : Stream → List ℕ → Bytes
  pub read_some_in_order :
      (n : ℕ) (s : Stream) (ahead : List ℕ)
      → (read_some n s).0 ++ rest (read_some n s).1 ahead ≡ rest s ahead
  pub read_some_bounded : (n : ℕ) (s : Stream) → length (read_some n s).0 ≤ n
  pub rest-write_all :
      (chunk : List ℕ) (s : Stream) (ahead : List ℕ)
      → rest (write_all chunk s) ahead ≡ rest s (chunk ++ ahead)

pub data DecoderState : Type 0 where
  init metadata records : DecoderState

-- `metadata_calls` and `seen` are what the callbacks were called with, the last call first;
-- `has_metadata_callback` is the test of `metadata_callback_`.
pub record BufferDecoder (Stream : Type 0) : Type 0 where
  pub upgrade_policy : VersionUpgradePolicy
  pub has_metadata_callback : Bool
  pub metadata_calls : List Metadata
  pub seen : List Bytes
  pub zstd_stream : Stream
  pub dbn_buffer : Buffer
  pub bytes_needed : ℕ
  pub input_version : ℕ
  pub ts_out : Bool
  pub needs_upgrade : Bool
  pub state : DecoderState

unfoldable pub new_decoder :
    {Stream : Type 0} → VersionUpgradePolicy → Bool → Stream → BufferDecoder Stream
new_decoder policy has_metadata_callback zstd_stream = record {
  upgrade_policy = policy;
  has_metadata_callback = has_metadata_callback;
  metadata_calls = [];
  seen = [];
  zstd_stream = zstd_stream;
  dbn_buffer = Buffer.new default_buf_size;
  bytes_needed = 0;
  input_version = 0;
  ts_out = false;
  needs_upgrade = true;
  state = init;
}

-- `DbnBufferDecoder::UnreadBytes`
abbrev pub unread_bytes : {Stream : Type 0} → BufferDecoder Stream → ℕ
unread_bytes d = read_capacity d.dbn_buffer

-- Whether `Process` goes on, and the decoder; `none` where a loop ran out of fuel.
abbrev pub Processed : Type 0 → Type 0
Processed Stream = Option (Result (KeepGoing × BufferDecoder Stream))

module _ {Stream : Type 0} where
  -- A call that may throw, inside a loop.
  abbrev pub unless_thrown : {A : Type 0} → Result A → (A → Processed Stream) → Processed Stream
  unless_thrown (ok a) body = body a
  unless_thrown (err e) body = some (err e)
  unless_thrown overrun body = some overrun

  abbrev pub unless_stop : KeepGoing → Processed Stream → Processed Stream → Processed Stream
  unless_stop stop last more = last
  unless_stop continue last more = more

  -- `if (needs_upgrade_) { record = DecodeRecordCompat(...); }`
  abbrev pub compat : BufferDecoder Stream → Bytes → Result Bytes
  compat d memory =
      if d.needs_upgrade
      then decode_record_compat d.input_version d.upgrade_policy d.ts_out memory
      else ok memory

  -- The call of `record_callback_`.
  abbrev pub called : Bytes → BufferDecoder Stream → BufferDecoder Stream
  called rec d = record d { seen = take (record_size rec) rec ∷ d.seen }

  -- The inner `while` loop, in the state `Records`.
  unfoldable pub records_loop : ℕ → RecordCallback → BufferDecoder Stream → Processed Stream
  records_loop zero callback d = none
  records_loop (suc fuel) callback d =
      let memory = at_read_pos d.dbn_buffer in
      let needed = record_size memory in
      let d1 = record d { bytes_needed = needed } in
      let taken = unless_thrown (compat d memory) λ rec.
        let d2 = called rec d1 in
        unless_stop (callback d2.seen) (some (ok (stop, d2))) (
          records_loop fuel callback
            (record d2 { dbn_buffer = Buffer.consume needed d.dbn_buffer })) in
      if read_capacity d.dbn_buffer == 0
      then some (ok (continue, d))
      else if ltb (read_capacity d.dbn_buffer) needed
      then some (ok (continue, d1))
      else taken

  -- `case DecoderState::Records`. Each record that is not of length 0 takes a byte at least.
  unfoldable pub on_records : RecordCallback → BufferDecoder Stream → Processed Stream
  on_records callback d = records_loop (suc (read_capacity d.dbn_buffer)) callback d

  -- What `case DecoderState::Metadata` does with the metadata.
  unfoldable pub with_metadata : Metadata → BufferDecoder Stream → BufferDecoder Stream
  with_metadata m d = record d {
    dbn_buffer = Buffer.shift (Buffer.consume d.bytes_needed d.dbn_buffer);
    ts_out = m.ts_out;
    metadata_calls =
        if d.has_metadata_callback
        then upgrade d.upgrade_policy m ∷ d.metadata_calls
        else d.metadata_calls;
    state = records;
  }

  -- `case DecoderState::Metadata`, which falls through to `Records`.
  unfoldable pub on_metadata : RecordCallback → BufferDecoder Stream → Processed Stream
  on_metadata callback d =
      let decoded =
        unless_thrown (decode_metadata_fields d.input_version (unread d.dbn_buffer))
          λ m. on_records callback (with_metadata m d) in
      if ltb (read_capacity d.dbn_buffer) d.bytes_needed then some (ok (continue, d)) else decoded

  -- What `case DecoderState::Init` does with the prelude.
  unfoldable pub with_prelude : ℕ × ℕ → BufferDecoder Stream → BufferDecoder Stream
  with_prelude (version, size) d = record d {
    input_version = version;
    bytes_needed = size;
    needs_upgrade = needs_upgrade d.upgrade_policy version;
    dbn_buffer = Buffer.reserve size (Buffer.consume metadata_prelude_size d.dbn_buffer);
    state = metadata;
  }

  -- `case DecoderState::Init`, which falls through to `Metadata`.
  unfoldable pub on_init : RecordCallback → BufferDecoder Stream → Processed Stream
  on_init callback d =
      let decoded =
        unless_thrown (decode_metadata_version_and_size (unread d.dbn_buffer))
          λ p. on_metadata callback (with_prelude p d) in
      if ltb (read_capacity d.dbn_buffer) metadata_prelude_size
      then some (ok (continue, d))
      else decoded

  -- `switch (state_)`
  abbrev pub on_state : DecoderState → RecordCallback → BufferDecoder Stream → Processed Stream
  on_state init = on_init
  on_state metadata = on_metadata
  on_state records = on_records

  -- The outer loop goes on unless the switch returned from `Process` or threw.
  abbrev pub then_loop :
      Processed Stream → (BufferDecoder Stream → Processed Stream) → Processed Stream
  then_loop none loop = none
  then_loop (some (err e)) loop = some (err e)
  then_loop (some overrun) loop = some overrun
  then_loop (some (ok (stop, d))) loop = some (ok (stop, d))
  then_loop (some (ok (continue, d))) loop = loop d

-- The end of `Historical::TimeseriesGetRange`: the number of bytes in the warning, where there is one.
abbrev pub warning : KeepGoing → ℕ → Option ℕ
warning stop unread = none
warning continue unread = if ltb 0 unread then some unread else none

module _ (z : ZstdStream) where
  open z use {Stream, read_some, write_all}

  -- `ShiftForSpace`, `ReadSome` and `Fill`: how many bytes were read, and the decoder.
  unfoldable pub read_more : BufferDecoder Stream → ℕ × BufferDecoder Stream
  read_more d =
      let b = Buffer.shift_for_space max_record_len d.dbn_buffer in
      let (bytes, zstd_stream) = read_some (write_capacity b) d.zstd_stream in
      let n = length bytes in
      (n, record d { zstd_stream = zstd_stream; dbn_buffer = Buffer.fill n (copy_in bytes b) })

  -- The outer `while` loop.
  unfoldable pub process_loop : ℕ → RecordCallback → BufferDecoder Stream → Processed Stream
  process_loop zero callback d = none
  process_loop (suc fuel) callback d =
      let (n, d1) = read_more d in
      let handled =
        then_loop (on_state d1.state callback d1) (λ d2. process_loop fuel callback d2) in
      if n == 0 then some (ok (continue, d1)) else handled

  -- `DbnBufferDecoder::Process`
  unfoldable pub process : ℕ → RecordCallback → List ℕ → BufferDecoder Stream → Processed Stream
  process fuel callback chunk d =
      process_loop fuel callback (record d { zstd_stream = write_all chunk d.zstd_stream })

  -- The content receiver in `Historical::TimeseriesGetRange` hands one chunk after the other to the
  -- decoder, until `Process` says stop.
  unfoldable pub process_all :
      ℕ → RecordCallback → List (List ℕ) → BufferDecoder Stream → Processed Stream
  process_all fuel callback [] d = some (ok (continue, d))
  process_all fuel callback (chunk ∷ chunks) d =
      then_loop (process fuel callback chunk d) (λ d'. process_all fuel callback chunks d')
