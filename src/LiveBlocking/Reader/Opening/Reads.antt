-- ===== src/LiveBlocking/Reader/Opening/Reads.antt =====
-- The reads of `Start`: exact reads into the buffer, and the prelude of an answer with metadata.
use databento_cpp.Base.{
  ℕ, ◌-◌, ◌≤◌, ◌<◌, ◌≡◌, refl, ap, ◌∙◌, arith, some, List, [], ◌++◌, length, take, drop, All,
  length-append, length-take, take-append, drop-append, le→ltb, lt→ltb,
}
use databento_cpp.Base.Results.{ok, overrun}
use databento_cpp.Buffer.{capacity, read_capacity, write_capacity, unread}
use databento_cpp.Buffer.Bounds.{IsValid}
use databento_cpp.Buffer.Contents.{length-unread, unread-copy_in}
use databento_cpp.Buffer.Calls.{filled_IsValid, capacity-filled}
use databento_cpp.Upgrade.{Bytes}
use databento_cpp.Metadata.{Metadata}
use databento_cpp.Metadata.Decode.{decode_metadata_version_and_size, decode_metadata_fields}
use databento_cpp.Decoder.{at_read_pos}
use databento_cpp.LiveBlocking.Reader.{Arrival, Reader}
use databento_cpp.LiveBlocking.Reader.Fill.{arriving, HasBytes}
use databento_cpp.LiveBlocking.Reader.Opening.{read_to_buffer, read_exact_into}
use databento_cpp.LiveBlocking.Reader.Opening.Exact.{read_exact-Taken}

-- A read of exactly `n` bytes into a buffer with room for them.
pub record Took (n : ℕ) (r r' : Reader) : Type 0 where
  pub valid : IsValid r'.buffer
  pub bytes : unread r'.buffer ≡ unread r.buffer ++ take n (arriving r.connection)
  pub left : arriving r'.connection ≡ drop n (arriving r.connection)
  pub some_bytes : All HasBytes r'.connection
  pub size : capacity r'.buffer ≡ capacity r.buffer

pub read_exact_into-Took :
    (n : ℕ) (r : Reader)
    → IsValid r.buffer
    → All HasBytes r.connection
    → n ≤ write_capacity r.buffer
    → n ≤ length (arriving r.connection)
    → (later : List Arrival) × let r' =
          read_to_buffer n r (take n (arriving r.connection), later) in
        (read_exact_into n r ≡ some (ok r')) × Took n r r'
unfolding read_exact_into
read_exact_into-Took n r v h room enough =
    let (later, e, t) = read_exact-Taken n r.connection h enough in
    let read = take n (arriving r.connection) in
    let len : length read ≡ n = omega (arith, length-take n (arriving r.connection)) in
    (
      later,
      (
        rw (le→ltb (write_capacity r.buffer) n room, e) refl,
        record {
          valid = rw len at (filled_IsValid read v (omega (arith, len)));
          bytes = rw len at (unread-copy_in read v (omega (arith, len)));
          left = t.left;
          some_bytes = t.some_bytes;
          size = capacity-filled n read r.buffer;
        },
      ),
    )

-- The gateway answers with metadata: its prelude, the frame that this announces, and then the records.
pub record Answers (connection : List Arrival) (version : ℕ) (frame behind : Bytes)
    (metadata : Metadata) : Type 0 where
  pub prelude : Bytes
  pub prelude_len : length prelude ≡ 8
  pub some_bytes : All HasBytes connection
  pub arrives : arriving connection ≡ prelude ++ (frame ++ behind)
  pub announced : decode_metadata_version_and_size prelude ≡ ok (version, length frame)
  pub fields : decode_metadata_fields version frame ≡ ok metadata

-- The prelude is in the buffer, and the frame is what comes next.
pub record PreludeRead (prelude frame behind : Bytes) (r1 : Reader) : Type 0 where
  pub whole : unread r1.buffer ≡ prelude
  pub eight : read_capacity r1.buffer ≡ 8
  pub first : take 8 (at_read_pos r1.buffer) ≡ prelude
  pub next : arriving r1.connection ≡ frame ++ behind

prelude_read :
    {r r1 : Reader} {prelude frame behind : Bytes}
    → IsValid r.buffer
    → read_capacity r.buffer ≡ 0
    → length prelude ≡ 8
    → arriving r.connection ≡ prelude ++ (frame ++ behind)
    → Took 8 r r1
    → PreludeRead prelude frame behind r1
prelude_read {r} {r1} {prelude} {frame} {behind} v none len arrives t =
    let front : take 8 (arriving r.connection) ≡ prelude =
      ap (take 8) arrives ∙ take-append 8 prelude (frame ++ behind) len in
    let none_left : r.buffer.write_pos - r.buffer.read_pos ≡ 0 = none in
    let none_before : unread r.buffer ≡ [] =
      ap (λ k. take k (drop r.buffer.read_pos r.buffer.mem)) none_left in
    let whole : unread r1.buffer ≡ prelude = t.bytes ∙ rw (none_before, front) refl in
    let eight : read_capacity r1.buffer ≡ 8 =
      omega (arith, length-unread t.valid, ap length whole, len) in
    record {
      whole = whole;
      eight = eight;
      first = rw eight at whole;
      next = t.left ∙ ap (drop 8) arrives ∙ drop-append 8 prelude (frame ++ behind) len;
    }

-- The client once it was authenticated: the answer is consumed, and nothing came behind it.
pub record IsAuthenticated (r : Reader) : Type 0 where
  pub valid : IsValid r.buffer
  pub none_left : read_capacity r.buffer ≡ 0
  pub room : 8 ≤ write_capacity r.buffer

-- The client once the request was sent, and once the prelude of the answer was read.
abbrev pub asked : List Arrival → Reader → Reader
asked connection r = record r { connection = connection }

abbrev pub with_prelude : List Arrival → Reader → List Arrival → Reader
with_prelude connection r later =
    read_to_buffer 8 (asked connection r) (take 8 (arriving connection), later)

pub first_read :
    {version : ℕ} {frame behind : Bytes} {metadata : Metadata} (connection : List Arrival)
    (r : Reader)
    → IsAuthenticated r
    → (a : Answers connection version frame behind metadata)
    → (later : List Arrival) × (read_exact_into 8 (asked connection r)
        ≡ some (ok (with_prelude connection r later)))
      × Took 8 (asked connection r) (with_prelude connection r later)
      × PreludeRead a.prelude frame behind (with_prelude connection r later)
first_read {version} {frame} {behind} {metadata} connection r h a =
    let (later, (e, t)) = read_exact_into-Took 8 (asked connection r) h.valid a.some_bytes h.room (
      omega
        (arith, ap length a.arrives, length-append a.prelude (frame ++ behind), a.prelude_len)) in
    (later, e, t, prelude_read h.valid h.none_left a.prelude_len a.arrives t)

pub read_exact_into-overrun :
    (n : ℕ) (r : Reader) → write_capacity r.buffer < n → read_exact_into n r ≡ some overrun
unfolding read_exact_into
read_exact_into-overrun n r h = rw (lt→ltb (write_capacity r.buffer) n h) refl
