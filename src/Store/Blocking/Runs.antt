-- ===== src/Store/Blocking/Runs.antt =====
-- A run of `GetMetadata` and `NextRecord` on small metadata and two records.
use databento_cpp.Base.{◌≡◌, refl, arith, false, some, List, [], ◌∷◌, length-replicate, ℕ}
use databento_cpp.Readable.{file_readable, InFileStream}
use databento_cpp.Metadata.{Metadata, upgrade, upgrade_to_v3}
use databento_cpp.Metadata.Runs.{small_metadata}
use databento_cpp.Store.OpenRuns.{
  frame, at_metadata, at_metadata-HasMetadata, large_enough, plain_v3,
}
use databento_cpp.Store.Runs.{
  first_record, second_record, first_record-IsRecord, second_record-IsRecord,
}
use databento_cpp.Store.Blocking.{DbnStore}
use databento_cpp.Store.Blocking.Calls.{Call, get, next, run, answers, get_and_next-answers}

abbrev blank : Metadata
blank = record small_metadata { symbols = []; dataset = [] }

abbrev fresh : DbnStore InFileStream
fresh = record { decoder = at_metadata 1100; metadata = blank; has_decoded_metadata = false }

abbrev calls : List Call
calls = next ∷ get ∷ next ∷ next ∷ get ∷ []

get_and_next-answers_example :
    run file_readable calls fresh
    ≡ some
        (answers (upgrade upgrade_to_v3 small_metadata) (first_record ∷ second_record ∷ []) calls)
get_and_next-answers_example =
    get_and_next-answers file_readable calls 3 frame small_metadata
      (first_record ∷ second_record ∷ []) (1 ∷ []) fresh refl
      (at_metadata-HasMetadata 1100 (omega arith)) large_enough
      (omega (arith, length-replicate 1100 (let z : ℕ = 0 in z))) plain_v3
      (first_record-IsRecord, (second_record-IsRecord, tt)) (omega arith) refl
