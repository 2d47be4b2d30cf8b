-- ===== src/Store/OpenRuns.antt =====
-- Runs of `DecodeMetadata` and `Replay` on small metadata and two records.
use databento_cpp.Base.{
  ℕ, ◌≤◌, ◌≡◌, refl, arith, inl, true, false, some, [], ◌∷◌, ◌++◌, length, drop, replicate,
  length-replicate, le, un_le,
}
use databento_cpp.Base.Results.{ok, overrun}
use databento_cpp.Readable.{file_readable, InFileStream}
use databento_cpp.Upgrade.{Bytes}
use databento_cpp.Metadata.{upgrade_to_v3, upgrade}
use databento_cpp.Metadata.Runs.{small_metadata, small_metadata-IsEncodable, small_metadata-Fits}
use databento_cpp.Metadata.Decode.{dbn_prefix, decode_metadata_version_and_size, has_prefix}
use databento_cpp.Metadata.Encode.{calc_length, needed_len}
use databento_cpp.Metadata.Format.{fields_bytes}
use databento_cpp.Metadata.RoundTrip.{metadata_bytes, decode-encode_metadata}
use databento_cpp.Upgrade.Dispatch.{needs_upgrade}
use databento_cpp.Decoder.{Decoder, decode_metadata}
use databento_cpp.Decoder.Header.{
  HasMetadata, FrameFits, Opened, decode_metadata-Opened, decode_metadata-overrun,
}
use databento_cpp.Store.{replay}
use databento_cpp.Store.Replay.{concat_records, replay_lem}
use databento_cpp.Store.Runs.{
  stop_at_two, first_record, second_record, first_record-IsRecord, second_record-IsRecord,
}

abbrev pub frame : Bytes
frame = drop 8 (metadata_bytes small_metadata)

abbrev pub magic : Bytes
magic = dbn_prefix ++ (3 ∷ [])

abbrev pub behind : Bytes
behind = concat_records (first_record ∷ second_record ∷ []) (1 ∷ [])

-- A decoder right behind `DetectCompression`, with `free` bytes of its buffer left.
abbrev pub at_metadata : ℕ → Decoder InFileStream
at_metadata free = record {
  version = 0;
  upgrade_policy = upgrade_to_v3;
  needs_upgrade = true;
  ts_out = false;
  input = le 4 (length frame) ++ (frame ++ behind);
  buffer = record { mem = magic ++ replicate free 0; read_pos = 0; write_pos = 4 };
  warnings = [];
}

pub length-frame : length frame ≡ 168
unfolding fields_bytes calc_length needed_len le
length-frame = refl

pub announced_frame :
    decode_metadata_version_and_size (magic ++ le 4 (length frame)) ≡ ok (3, length frame)
unfolding decode_metadata_version_and_size has_prefix fields_bytes calc_length needed_len le un_le
announced_frame = refl

pub four_bytes : length (le 4 (length frame)) ≡ 4
unfolding le
four_bytes = refl

-- The free bytes of the buffer are at least four.
pub at_metadata-HasMetadata :
    (free : ℕ)
    → 4 ≤ free
    → HasMetadata file_readable (at_metadata free) 3 frame behind small_metadata
at_metadata-HasMetadata free h = record {
  magic = magic;
  more = le 4 (length frame);
  valid = record { ordered = omega arith; inside = omega arith };
  opened = refl;
  magic_len = refl;
  more_len = four_bytes;
  input = refl;
  announced = announced_frame;
  fields =
      (decode-encode_metadata small_metadata [] small_metadata-IsEncodable small_metadata-Fits).2;
  room = omega (arith, length-replicate free (let z : ℕ = 0 in z));
}

pub large_enough : FrameFits file_readable (at_metadata 1100).buffer (length frame)
large_enough = inl (omega (arith, length-frame, length-replicate 1100 (let z : ℕ = 0 in z)))

decode_metadata-Opened_example :
    (d' : Decoder InFileStream) × (decode_metadata file_readable (at_metadata 1100)
      ≡ ok (upgrade upgrade_to_v3 small_metadata, d'))
    × Opened file_readable (at_metadata 1100) 3 behind small_metadata d'
decode_metadata-Opened_example =
    decode_metadata-Opened file_readable (at_metadata 1100) 3 frame behind small_metadata
      (at_metadata-HasMetadata 1100 (omega arith)) large_enough

-- A buffer of 170 bytes for a frame of 168, behind a prelude of eight.
decode_metadata-overrun_example : decode_metadata file_readable (at_metadata 166) ≡ overrun
decode_metadata-overrun_example =
    decode_metadata-overrun file_readable (at_metadata 166) 3 frame behind small_metadata
      (at_metadata-HasMetadata 166 (omega arith))
      (omega (arith, length-frame, length-replicate 166 (let z : ℕ = 0 in z)))
      (omega (arith, length-frame, length-replicate 166 (let z : ℕ = 0 in z)))

pub plain_v3 : needs_upgrade upgrade_to_v3 3 ≡ false
unfolding needs_upgrade
plain_v3 = refl

replay_lem_example :
    (d' : Decoder InFileStream) × (replay file_readable 3 stop_at_two (at_metadata 1100)
      ≡ ok
          (upgrade upgrade_to_v3 small_metadata, some (ok (second_record ∷ first_record ∷ [], d'))))
replay_lem_example =
    replay_lem file_readable 3 stop_at_two 3 frame small_metadata
      (first_record ∷ second_record ∷ []) (1 ∷ []) (at_metadata 1100)
      (at_metadata-HasMetadata 1100 (omega arith)) large_enough
      (omega (arith, length-replicate 1100 (let z : ℕ = 0 in z))) plain_v3
      (first_record-IsRecord, (second_record-IsRecord, tt)) (omega arith) refl (omega arith)
