-- ===== src/Decoder/Open.antt =====
-- The constructor of `DbnDecoder` and `DetectCompression` on a stream that is not compressed.
use databento_cpp.Base.{
  ℕ, ◌≡◌, refl, ap, ◌∙◌, arith, true, [], ◌++◌, length, take, drop, length-append, length-replicate,
  take-append, drop-append,
}
use databento_cpp.Base.Results.{ok}
use databento_cpp.Readable.{Readable}
use databento_cpp.Buffer
use databento_cpp.Buffer.{
  Buffer, capacity, read_capacity, write_capacity, unread, copy_in, default_buf_size,
}
use databento_cpp.Buffer.Bounds.{IsValid, new-IsValid}
use databento_cpp.Upgrade.{Bytes}
use databento_cpp.Metadata.{VersionUpgradePolicy}
use databento_cpp.Metadata.Decode.{has_prefix}
use databento_cpp.Decoder
use databento_cpp.Decoder.{Decoder, at_read_pos, read_exact_into, detect_compression, open_decoder}
use databento_cpp.Decoder.Reads.{read_exact_into-Took}

module _ (r : Readable) where
  open r use {Stream, rest}

  -- A decoder that has read the first four bytes of its input.
  pub record Detected (policy : VersionUpgradePolicy) (magic others : Bytes) (d : Decoder Stream)
      : Type 0 where
    pub valid : IsValid d.buffer
    pub opened : unread d.buffer ≡ magic
    pub input : rest d.input ≡ others
    pub size : capacity d.buffer ≡ default_buf_size
    pub behind : d.buffer.write_pos ≡ 4
    pub policy_kept : d.upgrade_policy ≡ policy
    pub no_warning : d.warnings ≡ []

  new_room :
      (policy : VersionUpgradePolicy) (input : Stream)
      → capacity (Decoder.new r policy input).buffer ≡ default_buf_size
  unfolding Decoder.new Buffer.new
  new_room policy input = length-replicate default_buf_size (let z : ℕ = 0 in z)

  -- The constructor, on an input that begins with four bytes, of which the first three are the
  -- prefix of DBN: it finds no compression, has read these four bytes and nothing else into a
  -- buffer of the default size, and keeps the policy.
  pub open_decoder-Detected :
      (zstd_stream : Bytes → Stream → Stream) (policy : VersionUpgradePolicy) (input : Stream)
      (magic others : Bytes)
      → rest input ≡ magic ++ others
      → length magic ≡ 4
      → has_prefix magic ≡ true
      → (d : Decoder Stream) × (open_decoder r zstd_stream policy input ≡ ok d)
        × Detected policy magic others d
  unfolding open_decoder detect_compression Decoder.new Buffer.new Buffer.fill
  open_decoder-Detected zstd_stream policy input magic others e len prefix =
      let d = Decoder.new r policy input in
      let room = new_room policy input in
      let (input', e1, t) =
        read_exact_into-Took r 4 d (new-IsValid default_buf_size) (omega (arith, room))
          (omega (arith, ap length e, length-append magic others)) in
      let front : take 4 (rest input) ≡ magic = ap (take 4) e ∙ take-append 4 magic others len in
      let all : unread (Buffer.fill 4 (copy_in (take 4 (rest input)) d.buffer)) ≡ magic =
        t.bytes ∙ front in
      let seen : take 4 (at_read_pos (Buffer.fill 4 (copy_in (take 4 (rest input)) d.buffer)))
          ≡ magic =
        all in
      (
        record d {
          input = input';
          buffer = Buffer.fill 4 (copy_in (take 4 (rest input)) d.buffer);
        },
        rw (e1, seen, prefix) refl,
        record {
          valid = t.valid;
          opened = all;
          input = t.left ∙ ap (drop 4) e ∙ drop-append 4 magic others len;
          size = t.size ∙ room;
          behind = refl;
          policy_kept = refl;
          no_warning = refl;
        },
      )
