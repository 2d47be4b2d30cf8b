-- ===== src/BufferDecoder/Runs.antt =====
-- Runs of `DbnBufferDecoder` on chunks that are not compressed.
use databento_cpp.Base.{
  ℕ, ◌≡◌, refl, arith, true, false, none, List, [], ◌∷◌, ◌++◌, length, take, drop, replicate,
  append_assoc, ap, sym, ◌∙◌, ◌⊎◌, length-take, take-append-drop,
}
use databento_cpp.Base.Results.{ok}
use databento_cpp.Upgrade.{Bytes}
use databento_cpp.Upgrade.Dispatch.{needs_upgrade}
use databento_cpp.Metadata.{upgrade_to_v3}
use databento_cpp.Metadata.Runs.{small_metadata, small_metadata-IsEncodable}
use databento_cpp.Metadata.Decode.{decode_metadata_version_and_size, decode_metadata_fields}
use databento_cpp.Metadata.RoundTrip.{metadata_bytes}
use databento_cpp.Metadata.Decode
use databento_cpp.Metadata.Encode.{calc_length, needed_len}
use databento_cpp.Metadata.Format.{fields_bytes}
use databento_cpp.Metadata.RoundTrip.{decode_metadata_fields_lem}
use databento_cpp.Base.{le, un_le}
use databento_cpp.Store.{RecordCallback, continue}
use databento_cpp.Store.OpenRuns.{frame, behind}
use databento_cpp.Store.Runs.{
  stop_at_two, first_record, second_record, first_record-IsRecord, second_record-IsRecord,
}
use databento_cpp.BufferDecoder.{
  new_decoder, BufferDecoder, Processed, process_all, records_loop, records,
}
use databento_cpp.BufferDecoder.Session.{Session}
use databento_cpp.BufferDecoder.Delivery.{Complete, HeldBack, process_all_lem}
use databento_cpp.BufferDecoder.Zstd.{
  Libzstd, ZstdDecodeStream, zstd_decode_stream, read_some, rest, read_some_in_order,
}
use databento_cpp.BufferDecoder.Chunks.{concat}
use databento_cpp.BufferDecoder.Hang.{records_loop-zero_length}

-- Frames whose bytes are stored as they are. 64 bytes are asked for at a time.
abbrev stored : Libzstd
stored = record {
  Context = Unit;
  init = λ c. (64, tt);
  decompress =
      λ room input c. record { output = take room input; taken = room; hint = 64; context = tt };
  content = λ c input. input;
  ended = λ c. Unit;
  in_order = λ room input ahead c.
      sym (append_assoc (take room input) (drop room input) ahead)
      ∙ ap (λ x. x ++ ahead) (take-append-drop room input);
  bounded = λ room input c. omega (arith, length-take room input);
  hint-ended = λ room input c e. tt;
  init_some = λ c. omega arith;
  content-init = λ c input h. refl;
}

abbrev prelude : Bytes
prelude = take 8 (metadata_bytes small_metadata)

announced_prelude : decode_metadata_version_and_size prelude ≡ ok (3, length frame)
unfolding decode_metadata_version_and_size Decode.has_prefix fields_bytes calc_length needed_len le
    un_le
announced_prelude = refl

prelude_size : length prelude ≡ 8
unfolding fields_bytes calc_length needed_len le
prelude_size = refl

frame_fields : (more : Bytes) → decode_metadata_fields 3 (frame ++ more) ≡ ok small_metadata
unfolding le
frame_fields more =
    let fields = fields_bytes 3 small_metadata in
    let padding : List ℕ = replicate (calc_length small_metadata).1 0 in
    ap (decode_metadata_fields 3) (append_assoc fields padding more)
    ∙ decode_metadata_fields_lem small_metadata (padding ++ more) small_metadata-IsEncodable

plain_v3 : needs_upgrade upgrade_to_v3 3 ≡ false
unfolding needs_upgrade
plain_v3 = refl

abbrev session : Session
session = record {
  policy = upgrade_to_v3;
  has_callback = true;
  prelude = prelude;
  frame = frame;
  version = 3;
  decoded = small_metadata;
  announces = record { eight = prelude_size; announced = announced_prelude; fields = frame_fields };
  plain = plain_v3;
}

-- The bytes of the session, cut within the prelude and within the second record.
abbrev all_bytes : Bytes
all_bytes = metadata_bytes small_metadata ++ behind

abbrev chunks : List (List ℕ)
chunks = take 3 all_bytes ∷ take 183 (drop 3 all_bytes) ∷ drop 186 all_bytes ∷ []

abbrev nothing_yet : ZstdDecodeStream stored
nothing_yet = record {
  read_suggestion = 64;
  z_in = [];
  context = tt;
  compressed = [];
  at_frame = λ e. tt;
}

chunks_join : concat chunks ≡ prelude ++ (frame ++ behind)
unfolding fields_bytes calc_length needed_len le
chunks_join = refl

chunks_size : length (concat chunks) ≡ 189
unfolding fields_bytes calc_length needed_len le
chunks_size = refl

abbrev ran : Processed (ZstdDecodeStream stored)
ran =
    process_all (zstd_decode_stream stored) 190 stop_at_two chunks
      (new_decoder upgrade_to_v3 true nothing_yet)

process_all_lem_example :
    Complete
      (zstd_decode_stream stored)
      session
      stop_at_two
      (first_record ∷ second_record ∷ [])
      (1 ∷ [])
      ran
    ⊎ HeldBack
        (zstd_decode_stream stored)
        session
        stop_at_two
        (first_record ∷ second_record ∷ [])
        (1 ∷ [])
        ran
process_all_lem_example =
    process_all_lem (zstd_decode_stream stored) session 190 stop_at_two chunks nothing_yet
      (first_record ∷ second_record ∷ []) (1 ∷ []) refl chunks_join
      (record {
        whole = (first_record-IsRecord, (second_record-IsRecord, tt));
        byte = omega arith;
        last = refl;
      })
      (omega (arith, chunks_size))

abbrev zero_length : BufferDecoder (ZstdDecodeStream stored)
zero_length = record {
  upgrade_policy = upgrade_to_v3;
  has_metadata_callback = false;
  metadata_calls = [];
  seen = [];
  zstd_stream = nothing_yet;
  dbn_buffer = record { mem = replicate 16 0; read_pos = 0; write_pos = 16 };
  bytes_needed = 0;
  input_version = 3;
  ts_out = false;
  needs_upgrade = false;
  state = records;
}

abbrev always : RecordCallback
always seen = continue

records_loop-zero_length_example : records_loop 1000 always zero_length ≡ none
records_loop-zero_length_example =
    records_loop-zero_length 1000 always zero_length refl (omega arith) refl (λ seen. refl)

-- A byte is held, three more are asked for, and there is room for four.
abbrev three_ready : ZstdDecodeStream stored
three_ready = record {
  read_suggestion = 3;
  z_in = 7 ∷ [];
  context = tt;
  compressed = 1 ∷ 2 ∷ 3 ∷ 4 ∷ 5 ∷ [];
  at_frame = λ e. tt;
}

read_some_in_order_example :
    (read_some stored 4 three_ready).0 ++ rest stored (read_some stored 4 three_ready).1 (6 ∷ [])
    ≡ rest stored three_ready (6 ∷ [])
read_some_in_order_example = read_some_in_order stored 4 three_ready (6 ∷ [])
