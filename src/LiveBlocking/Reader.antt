-- ===== src/LiveBlocking/Reader.antt =====
-- src/live_blocking.cpp: how `LiveBlocking` reads records from a connection that may be slow. What the
-- connection does is a list of arrivals, each with the time of the steady clock at which it is seen; an
-- arrival of bytes has at least one.
pub mod Fill
pub mod Next
pub mod Opening
mod Runs
use databento_cpp.Base.{
  ℕ, zero, suc, ◌-◌, ◌≡◌, Bool, true, false, Option, none, some, List, [], ◌∷◌, ◌++◌, ltb, ◌==◌,
  if◌then◌else◌, length, take, drop,
}
use databento_cpp.Base.Results.{Result}
use databento_cpp.Buffer
use databento_cpp.Buffer.{Buffer, read_capacity, write_capacity, copy_in}
use databento_cpp.Upgrade.{Bytes, record_size}
use databento_cpp.Upgrade.Dispatch.{decode_record_compat}
use databento_cpp.Metadata.{VersionUpgradePolicy}
use databento_cpp.Decoder.{at_read_pos, max_record_len}

-- What the next call of `ReadSome` sees.
pub data Arrival : Type 0 where
  bytes : Bytes → ℕ → Arrival
  timeout : ℕ → Arrival
  closed : Arrival

-- `heartbeat_timeout` is the interval that was set with its margin, or the default.
pub record Reader : Type 0 where
  pub version : ℕ
  pub upgrade_policy : VersionUpgradePolicy
  pub send_ts_out : Bool
  pub heartbeat_timeout : ℕ
  pub last_read_time : ℕ
  pub buffer : Buffer
  pub connection : List Arrival

-- How a call ends: with a record, as the memory from its header on; with `nullptr`; by an exception; or
-- it still waits when nothing more arrives.
pub data Outcome : Type 0 where
  record_ready : Result Bytes → Outcome
  no_record heartbeat_exceeded session_closed waiting out_of_fuel : Outcome

-- The status of a read.
pub data Status : Type 0 where
  read : Status
  timed_out : ℕ → Status
  at_end pending : Status

-- The bytes that a read leaves.
abbrev pub left_over : Bytes → ℕ → List Arrival → List Arrival
left_over [] time later = later
left_over (b ∷ rest) time later = bytes (b ∷ rest) time ∷ later

-- `FillBuffer`
abbrev pub fill_from : List Arrival → Reader → Status × Reader
fill_from [] r = (pending, r)
fill_from (closed ∷ later) r = (at_end, record r { connection = closed ∷ later })
fill_from (timeout time ∷ later) r = (timed_out time, record r { connection = later })
fill_from (bytes sent time ∷ later) r =
    let room = write_capacity r.buffer in
    let taken = take room sent in
    (
      read,
      record r {
        buffer = Buffer.fill (length taken) (copy_in taken r.buffer);
        last_read_time = time;
        connection = left_over (drop room sent) time later;
      },
    )

unfoldable pub fill_buffer : Reader → Status × Reader
fill_buffer r =
    fill_from r.connection (record r { buffer = Buffer.shift_for_space max_record_len r.buffer })

-- `CheckHeartbeatTimeout` at a time, and `return nullptr`.
abbrev pub after_timeout : ℕ → Reader → Outcome × Reader
after_timeout time r =
    (if ltb r.heartbeat_timeout (time - r.last_read_time) then heartbeat_exceeded else no_record, r)

-- `ConsumeBufferedRecord`
unfoldable pub consume_buffered_record : Reader → Outcome × Reader
consume_buffered_record r =
    let memory = at_read_pos r.buffer in
    (
      record_ready (decode_record_compat r.version r.upgrade_policy r.send_ts_out memory),
      record r { buffer = Buffer.consume (record_size memory) r.buffer },
    )

-- What follows a read.
abbrev pub on_status : Status × Reader → (Reader → Outcome × Reader) → Outcome × Reader
on_status (read, r) go_on = go_on r
on_status (timed_out time, r) go_on = after_timeout time r
on_status (at_end, r) go_on = (session_closed, r)
on_status (pending, r) go_on = (waiting, r)

-- The loop of `NextRecord` that waits for the whole record, on fuel.
unfoldable pub wait_for_record : ℕ → Reader → Outcome × Reader
wait_for_record zero r = (out_of_fuel, r)
wait_for_record (suc fuel) r =
    let more = on_status (fill_buffer r) (wait_for_record fuel) in
    if ltb (read_capacity r.buffer) (record_size (at_read_pos r.buffer))
    then more
    else consume_buffered_record r

-- `sizeof(RecordHeader)`
abbrev pub record_header_size : ℕ
record_header_size = 16

-- `NextRecord(timeout)`
unfoldable pub next_record_within : ℕ → Reader → Outcome × Reader
next_record_within fuel r =
    let first = on_status (fill_buffer r) (wait_for_record fuel) in
    if ltb (read_capacity r.buffer) record_header_size then first else wait_for_record fuel r

-- `TryNextRecord`
unfoldable pub try_next_record : Reader → Outcome × Reader
try_next_record r =
    if ltb (read_capacity r.buffer) record_header_size
    then (no_record, r)
    else if ltb (read_capacity r.buffer) (record_size (at_read_pos r.buffer))
    then (no_record, r)
    else consume_buffered_record r
