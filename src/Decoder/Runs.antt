-- ===== src/Decoder/Runs.antt =====
-- Runs of `DecodeRecord` on an `InFileStream`.
use databento_cpp.Base.{ℕ, ◌≡◌, arith, false, [], ◌∷◌, replicate, length-replicate, Bool, some}
use databento_cpp.Readable.{file_readable, InFileStream}
use databento_cpp.Metadata.{as_is}
use databento_cpp.Decoder.{Decoder, decode_record, fill_record}
use databento_cpp.Decoder.Fill.{IsReady, Settled}
use databento_cpp.Decoder.Loop.{fill_record-Settled}
use databento_cpp.Decoder.Records.{Outcome}
use databento_cpp.Decoder.Next.{decode_record-Outcome}

-- A buffer that holds half of a record of eight bytes; the file has its other half, a record of four
-- bytes and one byte of a third.
abbrev pub half_record : Decoder InFileStream
half_record = record {
  version = 3;
  upgrade_policy = as_is;
  needs_upgrade = false;
  ts_out = false;
  input = 5 ∷ 6 ∷ 7 ∷ 8 ∷ 1 ∷ 0 ∷ 0 ∷ 0 ∷ 1 ∷ [];
  buffer = record { mem = 2 ∷ 2 ∷ 3 ∷ 4 ∷ replicate 1100 0; read_pos = 0; write_pos = 4 };
  warnings = [];
}

pub half_record-IsReady : IsReady file_readable half_record
half_record-IsReady = record {
  valid = record {
    ordered = omega arith;
    inside = omega (arith, length-replicate 1100 (let z : ℕ = 0 in z));
  };
  large = omega (arith, length-replicate 1100 (let z : ℕ = 0 in z));
}

decode_record-Outcome_example :
    Outcome file_readable half_record (decode_record file_readable half_record)
decode_record-Outcome_example =
    decode_record-Outcome file_readable half_record half_record-IsReady (omega arith)

fill_record-Settled_example :
    (whole : Bool) × (d' : Decoder InFileStream) × (fill_record file_readable 1021 half_record
      ≡ some (whole, d'))
    × Settled file_readable half_record whole d'
fill_record-Settled_example =
    fill_record-Settled file_readable 1021 half_record half_record-IsReady (omega arith)
      (omega arith) (omega arith) (omega arith)
