-- ===== src/Encoder/Runs.antt =====
-- A run of `DbnEncoder` whose output is replayed.
use databento_cpp.Base.{◌+◌, ◌≤◌, ◌<◌, ◌≡◌, refl, arith, ◌⊎◌, inl, some, false, List, [], ◌∷◌}
use databento_cpp.Base.Results.{ok}
use databento_cpp.Readable.{file_readable, InFileStream}
use databento_cpp.Buffer.{default_buf_size}
use databento_cpp.Metadata.{upgrade_to_v3, upgrade}
use databento_cpp.Metadata.Runs.{small_metadata, small_metadata-IsEncodable, small_metadata-Fits}
use databento_cpp.Metadata.Encode.{calc_length, needed_len, done}
use databento_cpp.Upgrade.{Bytes}
use databento_cpp.Upgrade.Dispatch.{needs_upgrade}
use databento_cpp.Decoder.{Decoder, open_decoder}
use databento_cpp.Store.{replay}
use databento_cpp.Store.Runs.{
  stop_at_two, first_record, second_record, first_record-IsRecord, second_record-IsRecord,
}
use databento_cpp.Encoder.{encode_stream}
use databento_cpp.Encoder.Replays.{stream_bytes, replay-encode_stream}

abbrev three_records : List Bytes
three_records = first_record ∷ second_record ∷ first_record ∷ []

small_frame :
    (8 + (calc_length small_metadata).0 ≤ default_buf_size)
    ⊎ (default_buf_size < (calc_length small_metadata).0)
unfolding calc_length needed_len
small_frame = inl (omega arith)

not_upgraded : needs_upgrade upgrade_to_v3 3 ≡ false
unfolding needs_upgrade
not_upgraded = refl

abbrev no_zstd : Bytes → InFileStream → InFileStream
no_zstd bytes s = s

replay-encode_stream_example :
    (encode_stream small_metadata three_records []
      ≡ done (stream_bytes small_metadata three_records))
    × (d : Decoder InFileStream) × (open_decoder file_readable no_zstd upgrade_to_v3
          (stream_bytes small_metadata three_records)
        ≡ ok d)
    × (d' : Decoder InFileStream) × (replay file_readable 4 stop_at_two d
        ≡ ok (
          upgrade upgrade_to_v3 small_metadata,
          some (ok (second_record ∷ first_record ∷ [], d')),
        ))
replay-encode_stream_example =
    replay-encode_stream small_metadata three_records upgrade_to_v3 4 stop_at_two no_zstd
      small_metadata-IsEncodable small_metadata-Fits
      (first_record-IsRecord, (second_record-IsRecord, (first_record-IsRecord, tt))) not_upgraded
      small_frame (omega arith)
