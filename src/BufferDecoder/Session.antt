-- ===== src/BufferDecoder/Session.antt =====
-- The states of `DbnBufferDecoder`: what each has still to call back with.
use databento_cpp.Base.{
  ℕ, ◌≤◌, ◌<◌, ◌≡◌, ◌⊎◌, Bool, false, none, some, List, [], ◌∷◌, ◌++◌, length, All, if◌then◌else◌,
}
use databento_cpp.Base.Results.{ok}
use databento_cpp.Buffer.{capacity, unread}
use databento_cpp.Buffer.Bounds.{IsValid}
use databento_cpp.Upgrade.{Bytes, head_or_zero}
use databento_cpp.Upgrade.Dispatch
use databento_cpp.Metadata.{Metadata, VersionUpgradePolicy, upgrade}
use databento_cpp.Metadata.Decode.{decode_metadata_version_and_size, decode_metadata_fields}
use databento_cpp.Decoder.Records.{next_record}
use databento_cpp.Store.{KeepGoing, continue, stop, RecordCallback}
use databento_cpp.Store.Replay.{IsRecord, concat_records, visited}
use databento_cpp.BufferDecoder.{BufferDecoder, DecoderState, init, metadata, records, Processed}

-- A prelude of eight bytes and the frame that it announces: the frame decodes to the metadata `m`,
-- whatever follows it.
pub record Announces (prelude frame : Bytes) (version : ℕ) (m : Metadata) : Type 0 where
  pub eight : length prelude ≡ 8
  pub announced : decode_metadata_version_and_size prelude ≡ ok (version, length frame)
  pub fields : (behind : Bytes) → decode_metadata_fields version (frame ++ behind) ≡ ok m

-- Whole records and a tail that holds none.
pub record AreRecords (recs : List Bytes) (tail : Bytes) : Type 0 where
  pub whole : All IsRecord recs
  pub byte : head_or_zero tail < 256
  pub last : next_record tail ≡ none

-- Whether the callback stops at one of the records.
abbrev pub unless_stopped : KeepGoing → KeepGoing → KeepGoing
unless_stopped stop more = stop
unless_stopped continue more = more

abbrev pub last_answer : RecordCallback → List Bytes → List Bytes → KeepGoing
last_answer callback seen [] = continue
last_answer callback seen (rec ∷ recs) =
    unless_stopped (callback (rec ∷ seen)) (last_answer callback (rec ∷ seen) recs)

-- A session: the metadata that it begins with, in bytes and decoded.
pub record Session : Type 0 where
  pub policy : VersionUpgradePolicy
  pub has_callback : Bool
  pub prelude : Bytes
  pub frame : Bytes
  pub version : ℕ
  pub decoded : Metadata
  pub announces : Announces prelude frame version decoded
  pub plain : Dispatch.needs_upgrade policy version ≡ false

-- The calls of the metadata callback, once the metadata are there.
abbrev pub told : Session → List Metadata
told s = if s.has_callback then upgrade s.policy s.decoded ∷ [] else []

-- What a state waits for.
abbrev pub Lacks : DecoderState → ℕ → Bytes → Type 0
Lacks init needed bytes = length bytes < 8
Lacks metadata needed bytes = length bytes < needed
Lacks records needed bytes = (next_record bytes ≡ none) × (length bytes ≤ 1020)

module _ {Stream : Type 0} (session : Session) where
  -- What a state knows, where the bytes `bytes` and then no others are still to come.
  abbrev pub Owes : DecoderState → BufferDecoder Stream → Bytes → List Bytes → Bytes → Type 0
  Owes init d bytes recs tail =
      (bytes ≡ session.prelude ++ (session.frame ++ concat_records recs tail))
      × (d.metadata_calls ≡ [])
  Owes metadata d bytes recs tail =
      (bytes ≡ session.frame ++ concat_records recs tail)
      × (d.metadata_calls ≡ [])
      × (d.input_version ≡ session.version)
      × (d.bytes_needed ≡ length session.frame)
      × (d.needs_upgrade ≡ false)
      × (length session.frame ≤ capacity d.dbn_buffer)
  Owes records d bytes recs tail =
      (bytes ≡ concat_records recs tail)
      × (d.metadata_calls ≡ told session)
      × (d.needs_upgrade ≡ false)

  -- `future` is what will be read behind the unread bytes.
  pub record Good (d : BufferDecoder Stream) (future : Bytes) (recs : List Bytes) (tail : Bytes)
      : Type 0 where
    pub valid : IsValid d.dbn_buffer
    pub large : 1020 < capacity d.dbn_buffer
    pub policy : d.upgrade_policy ≡ session.policy
    pub callback : d.has_metadata_callback ≡ session.has_callback
    pub owes : Owes d.state d (unread d.dbn_buffer ++ future) recs tail

  pub record Waiting (d : BufferDecoder Stream) (future : Bytes) (recs : List Bytes) (tail : Bytes)
      : Type 0 where
    pub good : Good d future recs tail
    pub lacks : Lacks d.state d.bytes_needed (unread d.dbn_buffer)

  -- The record callback has said stop.
  pub record Stopped (callback : RecordCallback) (seen recs : List Bytes)
      (result : Processed Stream) : Type 0 where
    pub after : BufferDecoder Stream
    pub returned : result ≡ some (ok (stop, after))
    pub told_records : after.seen ≡ visited callback seen recs
    pub told_stop : last_answer callback seen recs ≡ stop
    pub told_metadata : after.metadata_calls ≡ told session

  -- All that was there has been handled.
  pub record Continued (callback : RecordCallback) (seen recs : List Bytes) (tail future : Bytes)
      (input : Stream) (result : Processed Stream) : Type 0 where
    pub after : BufferDecoder Stream
    pub left : List Bytes
    pub returned : result ≡ some (ok (continue, after))
    pub are_records : AreRecords left tail
    pub waiting : Waiting after future left tail
    pub same_end : visited callback after.seen left ≡ visited callback seen recs
    pub same_answer : last_answer callback after.seen left ≡ last_answer callback seen recs
    pub same_input : after.zstd_stream ≡ input

  abbrev pub Handled :
      RecordCallback → List Bytes → List Bytes → Bytes → Bytes → Stream → Processed Stream → Type 0
  Handled callback seen recs tail future input result =
      Stopped callback seen recs result ⊎ Continued callback seen recs tail future input result
