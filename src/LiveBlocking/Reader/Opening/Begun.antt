-- ===== src/LiveBlocking/Reader/Opening/Begun.antt =====
-- `Start` on a connection on which the gateway sends the metadata of the session and its records.
use databento_cpp.Base.{
  ℕ, ◌+◌, ◌≤◌, ◌<◌, ◌≡◌, refl, ap, ◌∙◌, arith, ◌⊎◌, some, List, ◌++◌, length, take, drop,
  length-append, length-overwrite, take-append, drop-append,
}
use databento_cpp.Base.Results.{ok, overrun}
use databento_cpp.Buffer
use databento_cpp.Buffer.{Buffer, capacity, read_capacity, write_capacity, unread, copy_in}
use databento_cpp.Upgrade.{Bytes}
use databento_cpp.Metadata.{Metadata, Text, upgrade}
use databento_cpp.Decoder.Reads.{buffer_for_frame, frame_consumed}
use databento_cpp.LiveBlocking.Reader.{Arrival, Reader}
use databento_cpp.LiveBlocking.Reader.Fill.{arriving, stream, IsReady}
use databento_cpp.LiveBlocking.Reader.Opening.{start_request, start}
use databento_cpp.LiveBlocking.Reader.Opening.Reads.{
  IsAuthenticated, read_exact_into-Took, read_exact_into-overrun, Answers, with_prelude, first_read,
}

-- Behind the metadata: the records are to come, and nothing of the metadata is left.
pub record Begun (now : ℕ) (r : Reader) (behind : Bytes) (metadata : Metadata) (r' : Reader)
    : Type 0 where
  pub ready : IsReady r'
  pub at_records : stream r' ≡ behind
  pub version_known : r'.version ≡ metadata.version
  pub policy_kept : r'.upgrade_policy ≡ r.upgrade_policy
  pub ts_out_kept : r'.send_ts_out ≡ r.send_ts_out
  pub just_read : r'.last_read_time ≡ now

-- The frame fits behind the prelude, or is longer than the whole buffer, which then grows.
abbrev pub FrameFits : Buffer → ℕ → Type 0
FrameFits b size = (b.write_pos + 8 + size ≤ capacity b) ⊎ (capacity b < size)

room_behind :
    (b : Buffer) (n : ℕ) (read : Bytes)
    → FrameFits b n
    → let b' = Buffer.fill 8 (copy_in read b) in
      (b'.write_pos + n ≤ capacity b') ⊎ (capacity b' < n)
unfolding Buffer.fill
room_behind b n read h = ground (arith, length-overwrite b.mem b.write_pos read)

-- `Start` of an authenticated client with a buffer larger than any record, where the gateway answers the
-- request with metadata whose frame fits behind the prelude or is longer than the whole buffer: it
-- returns the metadata, upgraded by the policy, and the client is ready for exactly the records behind.
pub start-Begun :
    (answer : Text → List Arrival) (now : ℕ) (r : Reader) (version : ℕ) (frame behind : Bytes)
    (metadata : Metadata)
    → IsAuthenticated r
    → 1020 < capacity r.buffer
    → Answers (answer start_request) version frame behind metadata
    → FrameFits r.buffer (length frame)
    → (r' : Reader) × (start answer now r ≡ some (ok (upgrade r.upgrade_policy metadata, r')))
      × Begun now r behind metadata r'
unfolding start
start-Begun answer now r version frame behind metadata h large a fits =
    let size = length frame in
    let connection = answer start_request in
    let (later1, e1, t1, p) = first_read connection r h a in
    let r0 = with_prelude connection r later1 in
    let (v2, empty, room, grown) =
      buffer_for_frame r0.buffer size t1.valid p.eight
        (room_behind r.buffer size (take 8 (arriving connection)) fits) in
    let r1 : Reader = record r0 { buffer = Buffer.reserve size (Buffer.consume 8 r0.buffer) } in
    let (later2, (e2, t2)) =
      read_exact_into-Took size r1 v2 t1.some_bytes room
        (omega (arith, ap length p.next, length-append frame behind)) in
    let whole : unread r1.buffer ++ take size (arriving later1) ≡ frame =
      rw (empty, p.next) (take-append size frame behind refl) in
    let b2 = Buffer.fill size (copy_in (take size (arriving later1)) r1.buffer) in
    let (v3, none_left, same_size) =
      frame_consumed b2 size t2.valid (ap length (t2.bytes ∙ whole)) in
    let framed = t2.bytes ∙ whole in
    (
      record r1 {
        buffer = Buffer.shift (Buffer.consume size b2);
        version = metadata.version;
        last_read_time = now;
        connection = later2;
      },
      rw (e1, p.first, a.announced, e2, framed, a.fields) refl,
      record {
        ready = record {
          valid = v3;
          large = omega (arith, grown, same_size, t1.size, t2.size, large);
          some_bytes = t2.some_bytes;
        };
        at_records =
            rw none_left (t2.left ∙ ap (drop size) p.next ∙ drop-append size frame behind refl);
        version_known = refl;
        policy_kept = refl;
        ts_out_kept = refl;
        just_read = refl;
      },
    )

no_room_behind :
    (b : Buffer) (n : ℕ) (read : Bytes)
    → 8 ≤ write_capacity b
    → n ≤ capacity b
    → capacity b < b.write_pos + 8 + n
    → write_capacity (Buffer.reserve n (Buffer.consume 8 (Buffer.fill 8 (copy_in read b)))) < n
unfolding Buffer.reserve Buffer.consume Buffer.fill
no_room_behind b n read room short long = ground (arith, length-overwrite b.mem b.write_pos read)

-- `Start` of an authenticated client, where the gateway answers the request with metadata whose frame
-- does not fit behind the prelude, while it is no longer than the whole buffer: `Reserve` does nothing,
-- and the frame is written past the end of the buffer.
pub start-overrun :
    (answer : Text → List Arrival) (now : ℕ) (r : Reader) (version : ℕ) (frame behind : Bytes)
    (metadata : Metadata)
    → IsAuthenticated r
    → Answers (answer start_request) version frame behind metadata
    → length frame ≤ capacity r.buffer
    → capacity r.buffer < r.buffer.write_pos + 8 + length frame
    → start answer now r ≡ some overrun
unfolding start
start-overrun answer now r version frame behind metadata h a short long =
    let connection = answer start_request in
    let (later, e, t, p) = first_read connection r h a in
    let size = length frame in
    let r0 = with_prelude connection r later in
    let r1 : Reader = record r0 { buffer = Buffer.reserve size (Buffer.consume 8 r0.buffer) } in
    let over =
      read_exact_into-overrun size r1
        (no_room_behind r.buffer size (take 8 (arriving connection)) h.room short long) in
    rw (e, p.first, a.announced, over) refl
