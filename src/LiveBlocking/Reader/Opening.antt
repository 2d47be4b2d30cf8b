-- ===== src/LiveBlocking/Reader/Opening.antt =====
-- src/live_blocking.cpp: `LiveBlocking::Start`, which asks the gateway for the session and reads its
-- metadata, with `ReadExact` of src/detail/tcp_client.cpp.
pub mod Exact
pub mod Reads
pub mod Begun
mod Runs
use databento_cpp.Base.{
  ℕ, zero, suc, ◌-◌, Bool, Option, none, some, List, [], ◌∷◌, ◌++◌, length, take, drop, ltb,
  if◌then◌else◌, codes,
}
use databento_cpp.Base.Results.{Result, ok, err, overrun, exception}
use databento_cpp.Buffer
use databento_cpp.Buffer.{Buffer, write_capacity, unread, copy_in}
use databento_cpp.Upgrade.{Bytes}
use databento_cpp.Metadata
use databento_cpp.Metadata.{Text, metadata_prelude_size, upgrade}
use databento_cpp.Metadata.Decode.{decode_metadata_version_and_size, decode_metadata_fields}
use databento_cpp.Decoder.{at_read_pos}
use databento_cpp.LiveBlocking.Reader.{Arrival, bytes, timeout, closed, Reader, left_over}

-- How a call ends that waits as long as it takes: `none` if it still waits when nothing more arrives.
abbrev pub Waits : Type 0 → Type 0
Waits A = Option (Result A)

infixl 5 ◌then_do◌
abbrev pub ◌then_do◌ : {A B : Type 0} → Waits A → (A → Waits B) → Waits B
none then_do f = none
some (ok a) then_do f = f a
some (err e) then_do f = some (err e)
some overrun then_do f = some overrun

-- `sent` in front of the bytes of a read.
abbrev behind_sent : Bytes → Bytes × List Arrival → Waits (Bytes × List Arrival)
behind_sent sent (more, later) = some (ok (sent ++ more, later))

-- `TcpClient::ReadExact`: `recv` with `MSG_WAITALL` waits for all of the bytes, through any timeout of
-- another call.
unfoldable pub read_exact : ℕ → List Arrival → Waits (Bytes × List Arrival)
read_exact zero connection = some (ok ([], connection))
read_exact (suc n) [] = none
read_exact (suc n) (closed ∷ later) = some (err exception)
read_exact (suc n) (timeout time ∷ later) = read_exact (suc n) later
read_exact (suc n) (bytes sent time ∷ later) =
    let more = read_exact (suc n - length sent) later then_do behind_sent sent in
    if ltb (length sent) (suc n)
    then more
    else some (ok (take (suc n) sent, left_over (drop (suc n) sent) time later))

-- `buffer_.Fill(size)` after the bytes were read to `WriteBegin()`.
abbrev pub read_to_buffer : ℕ → Reader → Bytes × List Arrival → Reader
read_to_buffer n r (read, later) = record r {
  buffer = Buffer.fill n (copy_in read r.buffer);
  connection = later;
}

-- `connection_.ReadExact(buffer_.WriteBegin(), n); buffer_.Fill(n)`, which writes past the buffer
-- unless there is room for `n` bytes.
unfoldable pub read_exact_into : ℕ → Reader → Waits Reader
read_exact_into n r =
    let read = read_exact n r.connection then_do λ got. some (ok (read_to_buffer n r got)) in
    if ltb (write_capacity r.buffer) n then some overrun else read

abbrev pub start_request : Text
start_request = codes "start_session\n"

-- `LiveBlocking::Start` at the time `now`. `answer` is what the gateway sends for a request,
-- decompressed as `SetCompression` says.
unfoldable pub start : (Text → List Arrival) → ℕ → Reader → Waits (Metadata.Metadata × Reader)
start answer now r =
    read_exact_into metadata_prelude_size (record r { connection = answer start_request })
    then_do λ r1.
        some (decode_metadata_version_and_size (take metadata_prelude_size (at_read_pos r1.buffer)))
        then_do λ (version, size).
            read_exact_into size (record r1 {
              buffer = Buffer.reserve size (Buffer.consume metadata_prelude_size r1.buffer);
            })
            then_do λ r2.
                some (decode_metadata_fields version (unread r2.buffer)) then_do λ metadata. some (
                  ok (
                    upgrade r2.upgrade_policy metadata,
                    record r2 {
                      buffer = Buffer.shift (Buffer.consume size r2.buffer);
                      version = metadata.version;
                      last_read_time = now;
                    },
                  ))
