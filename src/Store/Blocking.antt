-- ===== src/Store/Blocking.antt =====
-- src/dbn_store.cpp: the blocking interface of `DbnStore`, `GetMetadata` and `NextRecord`, which decode
-- the metadata on the first call.
pub mod Calls
mod Runs
use databento_cpp.Base.{
  ◌≡◌, refl, sym, ap, ◌∙◌, Bool, true, false, Option, none, some, if◌then◌else◌, Bool-cases, inl,
  inr,
}
use databento_cpp.Base.Results.{Result, ok, err, overrun, ◌>>=◌}
use databento_cpp.Readable.{Readable}
use databento_cpp.Metadata.{Metadata}
use databento_cpp.Upgrade.{Bytes}
use databento_cpp.Decoder.{Decoder, decode_metadata, decode_record}

pub record DbnStore (Stream : Type 0) : Type 0 where
  pub decoder : Decoder Stream
  pub metadata : Metadata
  pub has_decoded_metadata : Bool

module _ (r : Readable) where
  open r use {Stream}

  -- `DbnStore::MaybeDecodeMetadata`
  unfoldable pub maybe_decode_metadata : DbnStore Stream → Result (DbnStore Stream)
  maybe_decode_metadata s =
      let decoding = decode_metadata r s.decoder >>= λ (metadata, decoder).
      ok (record s { metadata = metadata; decoder = decoder; has_decoded_metadata = true }) in
      if s.has_decoded_metadata then ok s else decoding

  -- `DbnStore::GetMetadata`
  unfoldable pub get_metadata : DbnStore Stream → Result (Metadata × DbnStore Stream)
  get_metadata s = maybe_decode_metadata s >>= λ s'. ok (s'.metadata, s')

  -- The decoder that `DecodeRecord` leaves is the store's.
  abbrev pub with_decoder :
      DbnStore Stream
      → Option (Result (Option Bytes × Decoder Stream))
      → Option (Result (Option Bytes × DbnStore Stream))
  with_decoder s none = none
  with_decoder s (some result) =
      some (result >>= λ (rec, decoder). ok (rec, record s { decoder = decoder }))

  -- `DbnStore::NextRecord`
  unfoldable pub next_record :
      DbnStore Stream → Result (Option (Result (Option Bytes × DbnStore Stream)))
  next_record s =
      maybe_decode_metadata s >>= λ s'. ok (with_decoder s' (decode_record r s'.decoder))
