-- ===== src/Store/Runs.antt =====
-- A run of `Replay` on an `InFileStream`.
use databento_cpp.Base.{◌≡◌, refl, arith, [], ◌∷◌, some}
use databento_cpp.Base.Results.{ok}
use databento_cpp.Readable.{file_readable, InFileStream}
use databento_cpp.Decoder.{Decoder}
use databento_cpp.Decoder.Runs.{half_record, half_record-IsReady}
use databento_cpp.Upgrade.{Bytes}
use databento_cpp.Store.{RecordCallback, continue, stop, replay_records}
use databento_cpp.Store.Replay.{IsRecord, replay_records_lem}

-- Stops at the second record.
abbrev pub stop_at_two : RecordCallback
stop_at_two (a ∷ b ∷ seen) = stop
stop_at_two _ = continue

abbrev pub first_record : Bytes
first_record = 2 ∷ 2 ∷ 3 ∷ 4 ∷ 5 ∷ 6 ∷ 7 ∷ 8 ∷ []

abbrev pub second_record : Bytes
second_record = 1 ∷ 0 ∷ 0 ∷ 0 ∷ []

pub first_record-IsRecord : IsRecord first_record
first_record-IsRecord = record { byte = omega arith; some_words = omega arith; sized = omega arith }

pub second_record-IsRecord : IsRecord second_record
second_record-IsRecord = record {
  byte = omega arith;
  some_words = omega arith;
  sized = omega arith;
}

replay_records_lem_example :
    (d' : Decoder InFileStream) × (replay_records file_readable 3 stop_at_two [] half_record
      ≡ some (ok (second_record ∷ first_record ∷ [], d')))
replay_records_lem_example =
    replay_records_lem file_readable 3 stop_at_two [] (first_record ∷ second_record ∷ []) (1 ∷ [])
      half_record half_record-IsReady refl (first_record-IsRecord, (second_record-IsRecord, tt))
      (omega arith) refl refl (omega arith)
