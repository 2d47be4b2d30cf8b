-- ===== src/Store/Blocking/Calls.antt =====
-- Any sequence of calls of `DbnStore::GetMetadata` and `DbnStore::NextRecord`.
use databento_cpp.Base.{
  ℕ, ◌<◌, ◌≡◌, refl, sym, ap, ◌∙◌, arith, Option, none, some, List, [], ◌∷◌, true, false, length,
  take, inl, inr, All,
}
use mathlib.Core.Path.{subst}
use databento_cpp.Base.Results.{Result, ok, err, overrun}
use databento_cpp.Readable.{Readable}
use databento_cpp.Buffer.{capacity}
use databento_cpp.Metadata.{Metadata, upgrade}
use databento_cpp.Upgrade.{Bytes, record_size, head_or_zero}
use databento_cpp.Upgrade.Dispatch.{needs_upgrade}
use databento_cpp.Decoder.{Decoder, decode_record}
use databento_cpp.Decoder.Fill.{IsReady, stream}
use databento_cpp.Decoder.Records.{next_record, Delivered}
use databento_cpp.Decoder.Next.{decode_record-Outcome}
use databento_cpp.Decoder.Header.{HasMetadata, FrameFits, decode_metadata-Opened}
use databento_cpp.Store.Replay.{
  IsRecord, concat_records, next_record-IsRecord, head_or_zero-concat, none≢some, next-Delivered,
}
use databento_cpp.Store.Blocking
use databento_cpp.Store.Blocking.{DbnStore, maybe_decode_metadata, get_metadata, with_decoder}

pub data Call : Type 0 where
  get next : Call

-- What a call returns.
pub data Reply : Type 0 where
  told : Metadata → Reply
  got : Bytes → Reply
  no_record : Reply

-- What a client may expect: the metadata whenever it asks for them, the records one after the other, and
-- no record once there are no more.
unfoldable pub answers : Metadata → List Bytes → List Call → List Reply
answers m recs [] = []
answers m recs (get ∷ calls) = told m ∷ answers m recs calls
answers m [] (next ∷ calls) = no_record ∷ answers m [] calls
answers m (rec ∷ recs) (next ∷ calls) = got rec ∷ answers m recs calls

module _ (r : Readable) where
  open r use {Stream}

  abbrev reply_get : Result (Metadata × DbnStore Stream) → Option (Reply × DbnStore Stream)
  reply_get (ok (m, s)) = some (told m, s)
  reply_get (err e) = none
  reply_get overrun = none

  abbrev reply_next :
      Result (Option (Result (Option Bytes × DbnStore Stream))) → Option (Reply × DbnStore Stream)
  reply_next (ok (some (ok (some rec, s)))) = some (got (take (record_size rec) rec), s)
  reply_next (ok (some (ok (none, s)))) = some (no_record, s)
  reply_next _ = none

  -- `none` where a call throws.
  unfoldable pub step : Call → DbnStore Stream → Option (Reply × DbnStore Stream)
  step get s = reply_get (get_metadata r s)
  step next s = reply_next (Blocking.next_record r s)

  abbrev prepend : Reply → Option (List Reply) → Option (List Reply)
  prepend reply none = none
  prepend reply (some replies) = some (reply ∷ replies)

  abbrev and_later :
      Option (Reply × DbnStore Stream)
      → (DbnStore Stream → Option (List Reply))
      → Option (List Reply)
  and_later none later = none
  and_later (some (reply, s)) later = prepend reply (later s)

  unfoldable pub run : List Call → DbnStore Stream → Option (List Reply)
  run [] s = some []
  run (call ∷ calls) s = and_later (step call s) (run calls)

  -- The metadata are decoded, and records and a tail are to come.
  record AtRecords (m : Metadata) (recs : List Bytes) (tail : Bytes) (s : DbnStore Stream)
      : Type 0 where
    decoded : s.has_decoded_metadata ≡ true
    metadata : s.metadata ≡ m
    ready : IsReady r s.decoder
    plain : s.decoder.needs_upgrade ≡ false
    same : stream r s.decoder ≡ concat_records recs tail

  again : (s : DbnStore Stream) → s.has_decoded_metadata ≡ true → maybe_decode_metadata r s ≡ ok s
  unfolding maybe_decode_metadata
  again s e = rw e refl

  step_get :
      (m : Metadata) (recs : List Bytes) (tail : Bytes) (s : DbnStore Stream)
      → AtRecords m recs tail s
      → step get s ≡ some (told m, s)
  unfolding step get_metadata
  step_get m recs tail s h = rw (again s h.decoded, h.metadata) refl

  -- `NextRecord` returns what `DecodeRecord` does.
  step_next :
      (s : DbnStore Stream) {result : Option (Result (Option Bytes × Decoder Stream))}
      → s.has_decoded_metadata ≡ true
      → decode_record r s.decoder ≡ result
      → step next s ≡ reply_next (ok (with_decoder r s result))
  unfolding step Blocking.next_record
  step_next s decoded e = rw (again s decoded, e) refl

  step_record :
      (s : DbnStore Stream) (e : Delivered r s.decoder (decode_record r s.decoder))
      → s.has_decoded_metadata ≡ true
      → s.decoder.needs_upgrade ≡ false
      → step next s
        ≡ some (got (take (record_size e.memory) e.memory), record s { decoder = e.after })
  step_record s e decoded plain = step_next s decoded e.returned ∙ rw plain refl

  run-answers :
      (calls : List Call) (m : Metadata) (recs : List Bytes) (tail : Bytes) (s : DbnStore Stream)
      → AtRecords m recs tail s
      → All IsRecord recs
      → head_or_zero tail < 256
      → next_record tail ≡ none
      → run calls s ≡ some (answers m recs calls)
  unfolding run answers
  run-answers [] m recs tail s h hs byte last = refl
  run-answers (get ∷ calls) m recs tail s h hs byte last =
      ap (λ o. and_later o (run calls)) (step_get m recs tail s h)
      ∙ ap (prepend (told m)) (run-answers calls m recs tail s h hs byte last)
  run-answers (next ∷ calls) m [] tail s h hs byte last =
      let d = s.decoder in
      elim (decode_record-Outcome r d h.ready
        (subst (λ x. head_or_zero x < 256) (sym h.same) byte)) [
          | inl e ↦
              let s' : DbnStore Stream = record s { decoder = e.after } in
              let at : AtRecords m [] tail s' = record {
                decoded = h.decoded;
                metadata = h.metadata;
                ready = e.ready;
                plain = ap (λ t. t.3) e.same_settings ∙ h.plain;
                same = e.same_stream ∙ h.same;
              } in
              ap (λ o. and_later o (run calls)) (step_next s h.decoded e.returned)
              ∙ ap (prepend no_record) (run-answers calls m [] tail s' at hs byte last)
          | inr e ↦ absurd (none≢some (sym last ∙ ap next_record (sym h.same) ∙ e.is_next))
        ]
  run-answers (next ∷ calls) m (rec ∷ recs) tail s h (one, hs) byte last =
      let d = s.decoder in
      let rest = concat_records recs tail in
      let first : next_record (stream r d) ≡ some (rec, rest) =
        ap next_record h.same ∙ next_record-IsRecord rec rest one in
      let small =
        subst (λ x. head_or_zero x < 256) (sym h.same)
          (head_or_zero-concat (rec ∷ recs) tail (one, hs) byte) in
      elim (decode_record-Outcome r d h.ready small) [
        | inl e ↦ absurd (none≢some (sym e.no_record ∙ first))
        | inr e ↦
            let (this, left) = next-Delivered r d rec rest one h.same e in
            let s' : DbnStore Stream = record s { decoder = e.after } in
            let at : AtRecords m recs tail s' = record {
              decoded = h.decoded;
              metadata = h.metadata;
              ready = e.ready;
              plain = ap (λ t. t.3) e.same_settings ∙ h.plain;
              same = left;
            } in
            let returned : step next s ≡ some (got rec, s') =
              step_record s e h.decoded h.plain ∙ ap (λ x. some (got x, s')) this in
            ap (λ o. and_later o (run calls)) returned
            ∙ ap (prepend (got rec)) (run-answers calls m recs tail s' at hs byte last)
      ]

  -- The first call decodes the metadata, whichever it is.
  step_first :
      (call : Call) (s s' : DbnStore Stream)
      → maybe_decode_metadata r s ≡ ok s'
      → maybe_decode_metadata r s' ≡ ok s'
      → step call s ≡ step call s'
  unfolding step get_metadata Blocking.next_record
  step_first get s s' first later = rw (first, later) refl
  step_first next s s' first later = rw (first, later) refl

  -- Any calls of `GetMetadata` and `NextRecord`, in any order, on a store that has not decoded its
  -- metadata, whose stream begins with metadata which need no upgrade and whose frame fits behind the
  -- prelude or is longer than the buffer, which is larger than any record, followed by whole records and
  -- a tail that holds no whole record: none throws; each call of `GetMetadata` gives the metadata,
  -- upgraded by the policy; and the calls of `NextRecord` give the records in order, each once, and then
  -- no record.
  pub get_and_next-answers :
      (calls : List Call) (version : ℕ) (frame : Bytes) (metadata : Metadata) (recs : List Bytes)
      (tail : Bytes) (s : DbnStore Stream)
      → s.has_decoded_metadata ≡ false
      → HasMetadata r s.decoder version frame (concat_records recs tail) metadata
      → FrameFits r s.decoder.buffer (length frame)
      → 1020 < capacity s.decoder.buffer
      → needs_upgrade s.decoder.upgrade_policy version ≡ false
      → All IsRecord recs
      → head_or_zero tail < 256
      → next_record tail ≡ none
      → run calls s ≡ some (answers (upgrade s.decoder.upgrade_policy metadata) recs calls)
  unfolding run answers maybe_decode_metadata
  get_and_next-answers [] version frame metadata recs tail s new h fits large plain hs byte last =
      refl
  get_and_next-answers (call ∷ calls) version frame metadata recs tail s new h fits large plain hs
        byte last =
      let m = upgrade s.decoder.upgrade_policy metadata in
      let (d, opened, o) =
        decode_metadata-Opened r s.decoder version frame (concat_records recs tail) metadata h
          fits in
      let s' : DbnStore Stream = record s {
        metadata = m;
        decoder = d;
        has_decoded_metadata = true;
      } in
      let at : AtRecords m recs tail s' = record {
        decoded = refl;
        metadata = refl;
        ready = record { valid = o.valid; large = omega (arith, o.grown) };
        plain = o.upgrade_known ∙ plain;
        same = o.at_records;
      } in
      let first : maybe_decode_metadata r s ≡ ok s' = rw (new, opened) refl in
      ap (λ o. and_later o (run calls)) (step_first call s s' first refl)
      ∙ run-answers (call ∷ calls) m recs tail s' at hs byte last
