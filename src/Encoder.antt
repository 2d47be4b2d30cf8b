-- ===== src/Encoder.antt =====
-- src/dbn_encoder.cpp: `DbnEncoder`, which writes metadata once and then records.
pub mod Replays
mod Runs
use databento_cpp.Base.{List, take}
use databento_cpp.Metadata.{Metadata}
use databento_cpp.Metadata.Encode.{Writer, ◌>>◌, write_all, write_each, encode_metadata}
use databento_cpp.Upgrade.{Bytes, record_size}

-- `DbnEncoder::EncodeRecord`, of a record that is the memory from its header on.
unfoldable pub encode_record : Bytes → Writer
encode_record memory = write_all (take (record_size memory) memory)

-- The constructor of `DbnEncoder`, and a call of `EncodeRecord` for each record.
unfoldable pub encode_stream : Metadata → List Bytes → Writer
encode_stream metadata recs = do encode_metadata metadata; write_each encode_record recs
