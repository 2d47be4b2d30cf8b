-- ===== src/Metadata/Decode/Prelude.antt =====
-- `DecodeMetadataVersionAndSize` on the first eight bytes of a stream.
use databento_cpp.Base.{
  ℕ, suc, ◌+◌, ◌%◌, ◌^◌, ◌<◌, ◌≡◌, ap, ◌∙◌, arith, false, List, [], ◌∷◌, ◌++◌, ltb, if◌then◌else◌,
  length, take, le, un_le, un_le-le, length-le, length-append, take-append,
}
use databento_cpp.Base.Results.{ok, err, dbn_response, short_frame}
use databento_cpp.Metadata.{fixed_metadata_len}
use databento_cpp.Metadata.Decode.{dbn_prefix, has_prefix, decode_metadata_version_and_size}

-- `DecodeMetadataVersionAndSize` on the prefix of DBN, a version of one byte, a size of four bytes
-- and anything behind them: it gives the version and the size, or throws where a frame of that size
-- cannot hold the fixed fields.
pub decode_prelude :
    (version size : ℕ) (rest : List ℕ)
    → version < 256
    → size < 256 ^ 4
    → decode_metadata_version_and_size (dbn_prefix ++ (le 1 version ++ (le 4 size ++ rest)))
      ≡ (if ltb size fixed_metadata_len then err (dbn_response short_frame) else ok (version, size))
unfolding decode_metadata_version_and_size has_prefix le
decode_prelude version size rest hv hs =
    let number : un_le (take 4 (le 4 size ++ rest)) ≡ size =
      ap un_le (take-append 4 (le 4 size) rest (length-le 4 size)) ∙ un_le-le 4 size hs in
    let short : un_le ((version % 256) ∷ []) ≡ version = un_le-le 1 version hv in
    let tail : length (le 4 size ++ rest) ≡ 4 + length rest =
      length-append (le 4 size) rest ∙ ap (λ n. n + length rest) (length-le 4 size) in
    let long : ltb (suc (suc (suc (suc (length (le 4 size ++ rest)))))) 8 ≡ false = ground arith in
    rw (short, number, long)
