-- ===== src/Store.antt =====
-- src/dbn_store.cpp: `DbnStore`, which replays a file or a stream of DBN to callbacks.
pub mod Replay
pub mod OpenRuns
pub mod Blocking
pub mod Runs
use databento_cpp.Base.{ℕ, zero, suc, Option, none, some, List, [], ◌∷◌, take}
use databento_cpp.Base.Results.{Result, ok, err, overrun, ◌>>=◌}
use databento_cpp.Readable.{Readable}
use databento_cpp.Metadata.{Metadata}
use databento_cpp.Upgrade.{Bytes, record_size}
use databento_cpp.Decoder.{Decoder, decode_record, decode_metadata}

pub data KeepGoing : Type 0 where
  continue stop : KeepGoing

-- A record callback may depend on all the records that it was called with, the last one first.
abbrev pub RecordCallback : Type 0
RecordCallback = List Bytes → KeepGoing

module _ (r : Readable) where
  open r use {Stream}

  -- The records that the callback was called with, the last one first, and the decoder.
  abbrev pub Replayed : Type 0
  Replayed = Option (Result (List Bytes × Decoder Stream))

  -- The test of the `while` loop: the loop's body is for a record.
  abbrev pub unless_nullptr :
      List Bytes
      → Option (Result (Option Bytes × Decoder Stream))
      → (Bytes → Decoder Stream → Replayed)
      → Replayed
  unless_nullptr seen none body = none
  unless_nullptr seen (some (err e)) body = some (err e)
  unless_nullptr seen (some overrun) body = some overrun
  unless_nullptr seen (some (ok (none, d))) body = some (ok (seen, d))
  unless_nullptr seen (some (ok (some memory, d))) body = body memory d

  abbrev pub unless_stop : KeepGoing → Replayed → Replayed → Replayed
  unless_stop stop last more = last
  unless_stop continue last more = more

  -- The `while` loop of `DbnStore::Replay`, on fuel: `none` if it runs out.
  unfoldable pub replay_records : ℕ → RecordCallback → List Bytes → Decoder Stream → Replayed
  replay_records zero callback seen d = none
  replay_records (suc fuel) callback seen d = unless_nullptr seen (decode_record r d) λ memory d'.
      let seen' = take (record_size memory) memory ∷ seen in
      unless_stop (callback seen') (some (ok (seen', d'))) (replay_records fuel callback seen' d')

  -- `DbnStore::Replay`: the metadata that the metadata callback is called with, and the replay of the
  -- records.
  unfoldable pub replay : ℕ → RecordCallback → Decoder Stream → Result (Metadata × Replayed)
  replay fuel callback d = do
    (metadata, d') ← decode_metadata r d
    ok (metadata, replay_records fuel callback [] d')
