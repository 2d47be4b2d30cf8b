-- ===== src/Store/Replay.antt =====
-- `DbnStore::Replay` against the list of the records in the stream.
use databento_cpp.Base.{
  ℕ, zero, suc, ◌<◌, ◌≡◌, refl, sym, ap, ◌∙◌, arith, inl, inr, false, Option, none, some, List, [],
  ◌∷◌, ◌++◌, length, take, All, length-append, take-append, drop-append,
}
use mathlib.Core.Path.{subst}
use databento_cpp.Base.Results.{ok}
use databento_cpp.Readable.{Readable}
use databento_cpp.Upgrade.{Bytes, record_size, head_or_zero}
use databento_cpp.Decoder.{Decoder, decode_record}
use databento_cpp.Decoder.Fill.{stream, IsReady}
use databento_cpp.Decoder.Next.{decode_record-Outcome}
use databento_cpp.Decoder.Records.{next_record, next_record-some, Ended, Delivered}
use databento_cpp.Buffer.{capacity}
use databento_cpp.Metadata.{Metadata, upgrade}
use databento_cpp.Upgrade.Dispatch.{needs_upgrade}
use databento_cpp.Decoder.Header.{HasMetadata, FrameFits, decode_metadata-Opened}
use databento_cpp.Store.{replay}
use databento_cpp.Store.{
  Replayed, KeepGoing, RecordCallback, stop, continue, unless_stop, replay_records,
}

-- A whole record: its first byte counts its words.
pub record IsRecord (rec : Bytes) : Type 0 where
  pub byte : head_or_zero rec < 256
  pub some_words : 0 < head_or_zero rec
  pub sized : length rec ≡ record_size rec

-- Records in a row, and what follows the last of them.
abbrev pub concat_records : List Bytes → Bytes → Bytes
concat_records [] tail = tail
concat_records (rec ∷ recs) tail = rec ++ concat_records recs tail

abbrev pub visit_unless_stop : KeepGoing → List Bytes → List Bytes → List Bytes
visit_unless_stop stop seen more = seen
visit_unless_stop continue seen more = more

-- The records that a callback sees: all of them in order, up to the one at which it stops.
abbrev pub visited : RecordCallback → List Bytes → List Bytes → List Bytes
visited callback seen [] = seen
visited callback seen (rec ∷ recs) =
    let seen' = rec ∷ seen in visit_unless_stop (callback seen') seen' (visited callback seen' recs)

record_size-behind :
    (rec rest : Bytes) → 0 < length rec → record_size (rec ++ rest) ≡ record_size rec
record_size-behind [] rest h = absurd (omega arith)
record_size-behind (b ∷ rec) rest h = refl

pub next_record-IsRecord :
    (rec rest : Bytes) → IsRecord rec → next_record (rec ++ rest) ≡ some (rec, rest)
next_record-IsRecord rec rest h =
    let pos : 0 < length rec = omega (arith, h.some_words, h.sized) in
    let size : record_size (rec ++ rest) ≡ length rec =
      record_size-behind rec rest pos ∙ sym h.sized in
    let len = length-append rec rest in
    next_record-some (rec ++ rest) (omega arith) (omega arith)
    ∙ rw (size, take-append (length rec) rec rest refl, drop-append (length rec) rec rest refl) refl

pub head_or_zero-concat :
    (recs : List Bytes) (tail : Bytes)
    → All IsRecord recs
    → head_or_zero tail < 256
    → head_or_zero (concat_records recs tail) < 256
head_or_zero-concat [] tail hs h = h
head_or_zero-concat ([] ∷ recs) tail (h1, hs) h = head_or_zero-concat recs tail hs h
head_or_zero-concat ((b ∷ rec) ∷ recs) tail (h1, hs) h = h1.byte

abbrev value_or : Bytes × Bytes → Option (Bytes × Bytes) → Bytes × Bytes
value_or default none = default
value_or default (some both) = both

pub none≢some : {both : Bytes × Bytes} → none ≡ some both → ⊥
none≢some e = cc

module _ (r : Readable) where
  open r use {Stream}

  -- A step of the loop at the end of the stream.
  replay_records-Ended :
      (fuel : ℕ) (callback : RecordCallback) (seen : List Bytes) (d : Decoder Stream)
      → Ended r d (decode_record r d)
      → (d' : Decoder Stream) × (replay_records r (suc fuel) callback seen d ≡ some (ok (seen, d')))
  unfolding replay_records
  replay_records-Ended fuel callback seen d e = (e.after, rw (e.returned) refl)

  -- A step of the loop at a record.
  replay_records-Delivered :
      (fuel : ℕ) (callback : RecordCallback) (seen : List Bytes) (d : Decoder Stream)
      → d.needs_upgrade ≡ false
      → (e : Delivered r d (decode_record r d))
      → let seen' = take (record_size e.memory) e.memory ∷ seen in
        replay_records r (suc fuel) callback seen d
        ≡ unless_stop r
            (callback seen')
            (some (ok (seen', e.after)))
            (replay_records r fuel callback seen' e.after)
  unfolding replay_records
  replay_records-Delivered fuel callback seen d plain e = rw (e.returned, plain) refl

  -- What is left of a record, and which record it was, by the bytes of the stream.
  pub next-Delivered :
      (d : Decoder Stream) (rec rest : Bytes)
      → IsRecord rec
      → stream r d ≡ rec ++ rest
      → (e : Delivered r d (decode_record r d))
      → (take (record_size e.memory) e.memory ≡ rec) × (stream r e.after ≡ rest)
  next-Delivered d rec rest h same e =
      let both = sym e.is_next ∙ ap next_record same ∙ next_record-IsRecord rec rest h in
      (ap (λ o. (value_or (rec, rest) o).0) both, ap (λ o. (value_or (rec, rest) o).1) both)

  -- Whether the callback stops or not.
  unless_stop-visited :
      (k : KeepGoing) (seen more : List Bytes) (after : Decoder Stream) (later : Replayed r)
      → (d' : Decoder Stream) × (later ≡ some (ok (more, d')))
      → (d' : Decoder Stream) × (unless_stop r k (some (ok (seen, after))) later
          ≡ some (ok (visit_unless_stop k seen more, d')))
  unless_stop-visited stop seen more after later (d', e) = (after, refl)
  unless_stop-visited continue seen more after later (d', e) = (d', e)

  -- The loop of `Replay`, on a decoder that needs no upgrade, whose buffer is valid and larger than any
  -- record, and whose bytes are whole records and a tail that holds no whole record: with more fuel
  -- than there are records it returns, and the callback has been called with exactly these records, in
  -- order and up to the first at which it stops, however the input splits them into reads.
  pub replay_records_lem :
      (fuel : ℕ) (callback : RecordCallback) (seen recs : List Bytes) (tail : Bytes)
      (d : Decoder Stream)
      → IsReady r d
      → d.needs_upgrade ≡ false
      → All IsRecord recs
      → head_or_zero tail < 256
      → next_record tail ≡ none
      → stream r d ≡ concat_records recs tail
      → length recs < fuel
      → (d' : Decoder Stream) × (replay_records r fuel callback seen d
          ≡ some (ok (visited callback seen recs, d')))
  replay_records_lem zero callback seen recs tail d ready plain hs byte last same enough =
      absurd (omega arith)
  replay_records_lem (suc fuel) callback seen [] tail d ready plain hs byte last same enough =
      elim (decode_record-Outcome r d ready (subst (λ s. head_or_zero s < 256) (sym same) byte)) [
        | inl e ↦ replay_records-Ended fuel callback seen d e
        | inr e ↦ absurd (none≢some (sym last ∙ ap next_record (sym same) ∙ e.is_next))
      ]
  replay_records_lem (suc fuel) callback seen (rec ∷ recs) tail d ready plain (h, hs) byte last same
        enough =
      let rest = concat_records recs tail in
      let first : next_record (stream r d) ≡ some (rec, rest) =
        ap next_record same ∙ next_record-IsRecord rec rest h in
      let small =
        subst (λ s. head_or_zero s < 256) (sym same)
          (head_or_zero-concat (rec ∷ recs) tail (h, hs) byte) in
      elim (decode_record-Outcome r d ready small) [
        | inl e ↦ absurd (none≢some (sym e.no_record ∙ first))
        | inr e ↦
            let (this, left) = next-Delivered d rec rest h same e in
            let plain' : e.after.needs_upgrade ≡ false = ap (λ t. t.3) e.same_settings ∙ plain in
            let later =
              replay_records_lem fuel callback (rec ∷ seen) recs tail e.after e.ready plain' hs byte
                last left (omega arith) in
            let (d', runs) =
              unless_stop-visited (callback (rec ∷ seen)) (rec ∷ seen)
                (visited callback (rec ∷ seen) recs) e.after
                (replay_records r fuel callback (rec ∷ seen) e.after) later in
            (d', rw this at (replay_records-Delivered fuel callback seen d plain e) ∙ runs)
      ]

  -- `DbnStore::Replay` on a stream that begins with metadata which need no upgrade and whose frame fits
  -- behind the prelude or is longer than the buffer, which is larger than any record, followed by whole
  -- records and a tail that holds no whole record: with more fuel than there are records it returns, the
  -- metadata callback gets the metadata, upgraded by the policy, and the record callback is called with
  -- exactly these records, in order and up to the first at which it stops.
  pub replay_lem :
      (fuel : ℕ) (callback : RecordCallback) (version : ℕ) (frame : Bytes) (metadata : Metadata)
      → (recs : List Bytes) (tail : Bytes) (d : Decoder Stream)
      → HasMetadata r d version frame (concat_records recs tail) metadata
      → FrameFits r d.buffer (length frame)
      → 1020 < capacity d.buffer
      → needs_upgrade d.upgrade_policy version ≡ false
      → All IsRecord recs
      → head_or_zero tail < 256
      → next_record tail ≡ none
      → length recs < fuel
      → (d' : Decoder Stream) × (replay r fuel callback d
          ≡ ok (upgrade d.upgrade_policy metadata, some (ok (visited callback [] recs, d'))))
  unfolding replay
  replay_lem fuel callback version frame metadata recs tail d h fits large plain hs byte last
        enough =
      let (d1, opened, o) =
        decode_metadata-Opened r d version frame (concat_records recs tail) metadata h fits in
      let ready : IsReady r d1 = record { valid = o.valid; large = omega (arith, o.grown) } in
      let (d2, runs) =
        replay_records_lem fuel callback [] recs tail d1 ready (o.upgrade_known ∙ plain) hs byte
          last o.at_records enough in
      (d2, rw (opened, runs) refl)
