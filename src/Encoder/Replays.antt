-- ===== src/Encoder/Replays.antt =====
-- What `DbnEncoder` writes is what `DbnStore` replays.
use databento_cpp.Base.{
  ℕ, ◌+◌, ◌^◌, ◌≤◌, ◌<◌, ◌≡◌, refl, ◌∙◌, arith, true, false, some, List, [], ◌∷◌, ◌++◌, length, All,
  le, take-all, replicate, length-append, length-replicate, ltb, le→ltb, ◌⊎◌,
}
use databento_cpp.Upgrade.{Bytes, record_size}
use databento_cpp.Metadata.{Metadata}
use databento_cpp.Metadata.Encode.{done, write_each, encode_metadata}
use databento_cpp.Metadata.Encode.Writes.{Writes, write_all-Writes, nothing-Writes, >>-Writes}
use databento_cpp.Metadata.Format.{IsEncodable, fields_bytes}
use databento_cpp.Metadata.RoundTrip.{metadata_bytes, encode_metadata-Writes}
use databento_cpp.Store.Replay.{IsRecord, concat_records}
use databento_cpp.Encoder.{encode_record, encode_stream}
use databento_cpp.Base.Results.{ok}
use databento_cpp.Readable.{file_readable, InFileStream}
use databento_cpp.Buffer.{default_buf_size}
use databento_cpp.Metadata.{VersionUpgradePolicy, upgrade, fixed_metadata_len}
use databento_cpp.Metadata.Decode.{dbn_prefix, has_prefix, decode_metadata_version_and_size}
use databento_cpp.Metadata.Decode.Prelude.{decode_prelude}
use databento_cpp.Metadata.Encode.{calc_length}
use databento_cpp.Metadata.Encode.Length.{calc_length_lem, length-fields_bytes}
use databento_cpp.Metadata.RoundTrip.{decode-encode_metadata}
use databento_cpp.Upgrade.Dispatch.{needs_upgrade}
use databento_cpp.Decoder.{Decoder, open_decoder}
use databento_cpp.Decoder.Open.{Detected, open_decoder-Detected}
use databento_cpp.Decoder.Header.{HasMetadata, FrameFits}
use databento_cpp.Store.{RecordCallback, replay}
use databento_cpp.Store.Replay.{visited, replay_lem}

encode_record-Writes : (rec : Bytes) → IsRecord rec → Writes (encode_record rec) rec
unfolding encode_record
encode_record-Writes rec h =
    rw (take-all (record_size rec) rec (omega (arith, h.sized))) (write_all-Writes rec)

encode_records-Writes :
    (recs : List Bytes)
    → All IsRecord recs
    → Writes (write_each encode_record recs) (concat_records recs [])
unfolding write_each
encode_records-Writes [] hs = nothing-Writes
encode_records-Writes (rec ∷ recs) (h, hs) =
    >>-Writes (encode_record rec) (write_each encode_record recs) (encode_record-Writes rec h)
      (encode_records-Writes recs hs)

-- The bytes of a stream.
abbrev pub stream_bytes : Metadata → List Bytes → Bytes
stream_bytes m recs = metadata_bytes m ++ concat_records recs []

encode_stream-Writes :
    (m : Metadata) (recs : List Bytes)
    → IsEncodable m
    → All IsRecord recs
    → Writes (encode_stream m recs) (stream_bytes m recs)
unfolding encode_stream
encode_stream-Writes m recs h hs =
    >>-Writes (encode_metadata m) (write_each encode_record recs) (encode_metadata-Writes m h)
      (encode_records-Writes recs hs)

-- The four bytes behind the magic ones, the frame that they announce, and how they lie in a stream.
abbrev magic : Metadata → Bytes
magic m = dbn_prefix ++ le 1 m.version

abbrev frame : Metadata → Bytes
frame m = fields_bytes m.version m ++ replicate (calc_length m).1 0

stream_bytes-parts :
    (m : Metadata) (recs : List Bytes)
    → stream_bytes m recs
      ≡ magic m ++ (le 4 (calc_length m).0 ++ (frame m ++ concat_records recs []))
unfolding le
stream_bytes-parts m recs = refl

length-frame :
    (m : Metadata)
    → IsEncodable m
    → length (fields_bytes m.version m) + 8 ≤ 2 ^ 32
    → length (frame m) ≡ (calc_length m).0
length-frame m h small = omega (
  arith,
  (calc_length_lem m h small).0,
  length-append (fields_bytes m.version m) (replicate (calc_length m).1 0),
  length-replicate (calc_length m).1 (let z : ℕ = 0 in z),
)

announced :
    (m : Metadata)
    → IsEncodable m
    → length (fields_bytes m.version m) + 8 ≤ 2 ^ 32
    → decode_metadata_version_and_size (magic m ++ le 4 (calc_length m).0)
      ≡ ok (m.version, (calc_length m).0)
unfolding le
announced m h small =
    let (size, pad, aligned, old) = calc_length_lem m h small in
    let full : ltb (calc_length m).0 fixed_metadata_len ≡ false =
      le→ltb (calc_length m).0 fixed_metadata_len (omega (arith, length-fields_bytes m h)) in
    decode_prelude m.version (calc_length m).0 [] (omega (arith, h.version_max)) (omega arith)
    ∙ rw (full) refl

length-magic : (m : Metadata) → length (magic m) ≡ 4
unfolding le
length-magic m = refl

has_prefix-magic : (m : Metadata) → has_prefix (magic m) ≡ true
unfolding has_prefix
has_prefix-magic m = refl

-- What an encoder writes opens as metadata and records.
written-HasMetadata :
    (m : Metadata) (recs : List Bytes) (policy : VersionUpgradePolicy) (d : Decoder InFileStream)
    → IsEncodable m
    → length (fields_bytes m.version m) + 8 ≤ 2 ^ 32
    → Detected file_readable policy
        (magic m)
        (le 4 (calc_length m).0 ++ (frame m ++ concat_records recs []))
        d
    → HasMetadata file_readable d m.version (frame m) (concat_records recs []) m
unfolding le
written-HasMetadata m recs policy d h small o = record {
  magic = magic m;
  more = le 4 (calc_length m).0;
  valid = o.valid;
  opened = o.opened;
  magic_len = refl;
  more_len = refl;
  input = o.input;
  announced = rw (length-frame m h small) (announced m h small);
  fields = (decode-encode_metadata m [] h small).2;
  room = omega (arith, o.size, o.behind);
}

-- For metadata that the format can hold, whose frame a `uint32_t` can count, and whole records: what
-- `DbnEncoder` writes, `DbnDecoder` opens, and `DbnStore::Replay` returns the metadata and calls the
-- record callback with exactly the records, in order and up to the first at which it stops; where the
-- policy needs no upgrade, the frame fits behind the prelude or is longer than the buffer, and the loop
-- has more fuel than there are records.
pub replay-encode_stream :
    (m : Metadata) (recs : List Bytes) (policy : VersionUpgradePolicy) (fuel : ℕ)
    (callback : RecordCallback)
    → (zstd_stream : Bytes → InFileStream → InFileStream) → IsEncodable m
    → length (fields_bytes m.version m) + 8 ≤ 2 ^ 32
    → All IsRecord recs
    → needs_upgrade policy m.version ≡ false
    → (8 + (calc_length m).0 ≤ default_buf_size) ⊎ (default_buf_size < (calc_length m).0)
    → length recs < fuel
    → (encode_stream m recs [] ≡ done (stream_bytes m recs))
      × (d : Decoder InFileStream) × (open_decoder file_readable zstd_stream policy
            (stream_bytes m recs)
          ≡ ok d)
      × (d' : Decoder InFileStream) × (replay file_readable fuel callback d
          ≡ ok (upgrade policy m, some (ok (visited callback [] recs, d'))))
replay-encode_stream m recs policy fuel callback zstd_stream h small hs plain fits enough =
    let others = le 4 (calc_length m).0 ++ (frame m ++ concat_records recs []) in
    let (d, opens, o) =
      open_decoder-Detected file_readable zstd_stream policy (stream_bytes m recs) (magic m) others
        (stream_bytes-parts m recs) (length-magic m) (has_prefix-magic m) in
    let place : FrameFits file_readable d.buffer (length (frame m)) =
      ground (arith, length-frame m h small, o.size, o.behind) in
    let (d', runs) =
      replay_lem file_readable fuel callback m.version (frame m) m recs [] d
        (written-HasMetadata m recs policy d h small o) place (omega (arith, o.size))
        (rw (o.policy_kept) plain) hs (omega arith) refl enough in
    ((encode_stream-Writes m recs h hs).behind [], d, opens, d', rw (o.policy_kept) at runs)
