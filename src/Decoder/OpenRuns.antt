-- ===== src/Decoder/OpenRuns.antt =====
-- A run of the constructor of `DbnDecoder`.
use databento_cpp.Base.{ℕ, ◌≡◌, refl, List, [], ◌∷◌, true}
use databento_cpp.Base.Results.{ok}
use databento_cpp.Readable.{file_readable, InFileStream}
use databento_cpp.Metadata.{upgrade_to_v3}
use databento_cpp.Metadata.Decode.{has_prefix}
use databento_cpp.Decoder.{Decoder, open_decoder}
use databento_cpp.Decoder.Open.{Detected, open_decoder-Detected}

abbrev no_zstd : List ℕ → InFileStream → InFileStream
no_zstd bytes s = s

abbrev dbn_v3 : List ℕ
dbn_v3 = b'D' ∷ b'B' ∷ b'N' ∷ 3 ∷ []

dbn_v3-prefix : has_prefix dbn_v3 ≡ true
unfolding has_prefix
dbn_v3-prefix = refl

open_decoder-Detected_example :
    (d : Decoder InFileStream) × (open_decoder file_readable no_zstd upgrade_to_v3
        (b'D' ∷ b'B' ∷ b'N' ∷ 3 ∷ 7 ∷ 8 ∷ [])
      ≡ ok d)
    × Detected file_readable upgrade_to_v3 dbn_v3 (7 ∷ 8 ∷ []) d
open_decoder-Detected_example =
    open_decoder-Detected file_readable no_zstd upgrade_to_v3 (b'D' ∷ b'B' ∷ b'N' ∷ 3 ∷ 7 ∷ 8 ∷ [])
      dbn_v3 (7 ∷ 8 ∷ []) refl refl dbn_v3-prefix
