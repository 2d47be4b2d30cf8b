-- ===== src/Lib.antt =====
-- databento-cpp: the client library for Databento market data.
--
-- The library reads and writes DBN (Databento Binary Encoding), a stream of metadata followed by
-- records. `DbnDecoder` (src/dbn_decoder.cpp) pulls bytes from any `IReadable`
-- (include/databento/ireadable.hpp) through a `Buffer` (src/detail/buffer.cpp), decodes the metadata
-- once, then hands out one record for each call, upgraded to a newer version of DBN if the policy
-- asks for it (src/v1.cpp, src/v2.cpp). `DbnEncoder` (src/dbn_encoder.cpp) writes such a stream. The
-- historical and live clients feed the decoder; enumerations and publishers have texts for requests
-- (src/enums.cpp, src/publishers.cpp).
--
-- Base, Base.*: numbers, lists, arrays of bytes, little-endian integers, C strings; `Result`, with
--   `err` for a C++ exception and `overrun` for an access outside of a block; and
--   `Parser`, the moving read pointer of src/dbn_decoder.cpp (`Consume`). Base.Maps is `std::map` and
--   Base.Stoul `std::stoul`, as far as the symbol maps use them.
-- Buffer: `detail::Buffer`. The block is a list of bytes, the three pointers are offsets. Buffer.Bounds
--   has its invariant, Buffer.Contents what happens to the unread bytes, Buffer.Calls what each
--   operation does, Buffer.Queue what a client may expect, and Buffer.Refine joins the two.
-- Metadata: the structs of include/databento/dbn.hpp. Metadata.Decode is `DecodeMetadataVersionAndSize`
--   and `DecodeMetadataFields`, Metadata.Encode is `EncodeMetadata` and `CalcLength`, Metadata.Format
--   describes the format without either, Metadata.RoundTrip joins them.
-- Upgrade: the conversions between versions. A record is the memory from its header on; a conversion
--   is a table of the new struct's fields (Upgrade.Messages, Upgrade.Definition, Upgrade.DefinitionV2),
--   Upgrade.Dispatch is `DecodeRecordCompat` and `NeedsUpgrade`, RType has the record types.
--   Upgrade.Structs describes the same by the structs of the versions, as the headers declare them, and
--   the names of their fields; Upgrade.Compat joins the two.
-- Readable: `IReadable` as an interface with what its comments promise, and `InFileStream`.
-- Decoder: `DbnDecoder`, over any `Readable`. Decoder.Fill is `FillBuffer`, Decoder.Loop the loop of
--   `DecodeRecord`, Decoder.Records and Decoder.Next are `DecodeRecord` against the records in the
--   bytes, Decoder.Reads and Decoder.Header are `DecodeMetadata` against a stream that begins with
--   metadata, and Decoder.Open is the constructor.
-- Encoder: `DbnEncoder`; Encoder.Replays joins it with the decoder and the store.
-- Store: `DbnStore` (src/dbn_store.cpp): `Replay`, on fuel that counts the records, and in
--   Store.Blocking `GetMetadata` and `NextRecord`, with any sequence of their calls in
--   Store.Blocking.Calls.
-- BufferDecoder: `DbnBufferDecoder` (src/detail/dbn_buffer_decoder.cpp) and the receiver of chunks in
--   `Historical::TimeseriesGetRange`. BufferDecoder.Session says what a session owes and what each state
--   waits for, BufferDecoder.Whole and BufferDecoder.Steps are the loop over records,
--   BufferDecoder.Behind and BufferDecoder.States the switch, BufferDecoder.Reads and
--   BufferDecoder.Loop the loop over reads, BufferDecoder.Chunks the chunks, BufferDecoder.Delivery the
--   whole session, and BufferDecoder.Hang a record of length 0. `ZstdStream` is what it relies on of its
--   stream, and BufferDecoder.Zstd is `ZstdDecodeStream::ReadSome` (src/detail/zstd_stream.cpp), which
--   keeps to it.
-- LiveThreaded: the processing thread of src/live_threaded.cpp as a function of events. LiveThreaded.Steps
--   has what every step keeps to, LiveThreaded.Notify and LiveThreaded.Ending what follows for runs, and
--   LiveThreaded.Waiting is `BlockForStop`.
-- SymbolMap: `TsSymbolMap` and `PitSymbolMap` (src/symbol_map.cpp). SymbolMap.Tables has the laws of the
--   maps, SymbolMap.Days is `Insert`, SymbolMap.TimeSeries and SymbolMap.PointInTime are the constructors,
--   SymbolMap.Agree joins them, SymbolMap.Live is `OnRecord`, and SymbolMap.Upgraded joins it with the
--   upgrade of records.
-- LiveBlocking: the subscriptions of `LiveBlocking` (src/live_blocking.cpp), with `JoinSymbolStrings`
--   (src/symbology.cpp). LiveBlocking.Texts says what is in a request,
--   LiveBlocking.Chunks is `Subscribe`, LiveBlocking.Resubscribe what `Resubscribe`
--   writes after any calls. LiveBlocking.Reader is how it reads records from arrivals, with
--   LiveBlocking.Reader.Fill for `FillBuffer` and LiveBlocking.Reader.Next for `NextRecord(timeout)`.
--   LiveBlocking.Reader.Opening is `Start` of an authenticated client, with `ReadExact` of
--   src/detail/tcp_client.cpp: LiveBlocking.Reader.Opening.Exact and .Reads have its reads,
--   LiveBlocking.Reader.Opening.Begun what it does.
-- Enums, Publishers, Record: `ToString` and `FromString`, `PublisherVenue` and `PublisherDataset`,
--   `SizeOfSchema` and `RTypeFromSchema`.
-- Flags: `FlagSet` (include/databento/flag_set.hpp), a byte and its bits.
-- The Runs and OpenRuns modules apply the theorems to small inputs.
--
-- Bounds and fuel: addresses and `size_t` are 64 bits, integers of w bits are numbers below 2^w. The
-- loop of `DecodeRecord` has fuel 1021: a record has at most 255 words of four bytes, and each read but
-- the last adds a byte, so that is enough. The inner loop of `DbnBufferDecoder` has fuel for one more
-- record than there are bytes, the outer one is given more fuel than there are bytes to come.
-- `NextRecord` of the live client has fuel for 1021 reads, for the same reason as `DecodeRecord`.
--
-- Assumed: libzstd, on frames without errors, puts out their content in order (`Libzstd`), and may hold
-- some of it back; the calendar of the date library counts days in the order of its dates (`Calendar`);
-- `LiveBlocking::Stop` does not throw; and `Start` of a threaded client is called once, so that no
-- second thread runs.
--
-- Not modelled: sockets, HTTP, JSON, hashing and the Zstandard library, which the code only calls (a
-- Zstandard stream is an argument of `open_decoder`); the requests of the historical client; the
-- authentication of the live client, whose `Start` is taken to follow it; that what its calls return
-- are the events of the threaded one; moves of a threaded client; the mutex and
-- the condition variable, for which each step of a thread is taken as one; stream operators,
-- which print for people. Years are not negative.
pub mod Base
pub mod Buffer
pub mod Metadata
pub mod Readable
pub mod Decoder
pub mod Encoder
pub mod Enums
pub mod Flags
pub mod Record
pub mod Store
pub mod Publishers
pub mod RType
pub mod Upgrade
pub mod BufferDecoder
pub mod LiveThreaded
pub mod SymbolMap
pub mod LiveBlocking
