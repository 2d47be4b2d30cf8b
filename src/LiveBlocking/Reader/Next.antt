-- ===== src/LiveBlocking/Reader/Next.antt =====
-- `LiveBlocking::NextRecord(timeout)` against the records in the bytes that arrive.
use databento_cpp.Base.{
  ℕ, zero, suc, ◌+◌, ◌≤◌, ◌<◌, ◌≡◌, refl, sym, ap, ◌∙◌, arith, ◌⊎◌, inl, inr, Bool, true, false,
  none, some, length, take, ltb, if◌then◌else◌, Bool-cases,
}
use mathlib.Core.Path.{subst}
use databento_cpp.Buffer
use databento_cpp.Buffer.{Buffer, capacity, read_capacity, unread}
use databento_cpp.Buffer.Bounds.{consume-IsValid}
use databento_cpp.Buffer.Contents.{length-unread}
use databento_cpp.Upgrade.{Bytes, record_size, head_or_zero}
use databento_cpp.Upgrade.Dispatch.{decode_record_compat}
use databento_cpp.Decoder.{at_read_pos}
use databento_cpp.Decoder.Fill.{record_size-append, record_size-unread}
use databento_cpp.Decoder.Records.{next_record, next_record-none, next_record-whole}
use databento_cpp.LiveBlocking.Reader.{
  Reader, Outcome, record_ready, no_record, heartbeat_exceeded, session_closed, waiting,
  out_of_fuel, Status, read, timed_out, at_end, pending, fill_buffer, on_status,
  consume_buffered_record, wait_for_record, next_record_within,
}
use databento_cpp.LiveBlocking.Reader.Fill.{
  arriving, stream, settings, IsReady, Filled, fill_buffer-Filled,
}

-- The call ends without a record.
abbrev pub is_idle : Outcome → Bool
is_idle (record_ready rec) = false
is_idle out_of_fuel = false
is_idle _ = true

-- No record is returned: no byte is lost, and the buffer holds less than a header or than a record.
pub record Kept (r : Reader) (result : Outcome × Reader) : Type 0 where
  pub idle : is_idle result.0 ≡ true
  pub ready : IsReady result.1
  pub same_stream : stream result.1 ≡ stream r
  pub same_settings : settings result.1 ≡ settings r
  pub short : (length (unread result.1.buffer) < 16) ⊎ (next_record (unread result.1.buffer) ≡ none)

-- The next record is returned, upgraded by the policy, and what is behind it is left.
pub record Got (r : Reader) (result : Outcome × Reader) : Type 0 where
  pub memory : Bytes
  pub outcome :
      result.0 ≡ record_ready (decode_record_compat r.version r.upgrade_policy r.send_ts_out memory)
  pub ready : IsReady result.1
  pub is_next : next_record (stream r) ≡ some (take (record_size memory) memory, stream result.1)
  pub same_settings : settings result.1 ≡ settings r

abbrev pub Ends : Reader → Outcome × Reader → Type 0
Ends r result = Kept r result ⊎ Got r result

-- The first byte to come is the first one of the buffer.
size_here :
    (r : Reader)
    → IsReady r
    → 0 < read_capacity r.buffer
    → record_size (stream r) ≡ record_size (at_read_pos r.buffer)
size_here r h pos =
    record_size-append (unread r.buffer) (arriving r.connection)
      (omega (arith, length-unread h.valid))
    ∙ record_size-unread r.buffer pos

consume-Got :
    (r : Reader)
    → IsReady r
    → 0 < read_capacity r.buffer
    → record_size (at_read_pos r.buffer) ≤ read_capacity r.buffer
    → Got r (consume_buffered_record r)
unfolding consume_buffered_record Buffer.consume
consume-Got r h pos fits = record {
  memory = at_read_pos r.buffer;
  outcome = refl;
  ready = record {
    valid = consume-IsValid (record_size (at_read_pos r.buffer)) h.valid fits;
    large = h.large;
    some_bytes = h.some_bytes;
  };
  is_next = next_record-whole r.buffer (arriving r.connection) h.valid pos fits;
  same_settings = refl;
}

-- What one call does is what it does behind a read.
Ends-behind :
    {r r' : Reader} (result : Outcome × Reader)
    → stream r' ≡ stream r
    → settings r' ≡ settings r
    → Ends r' result
    → Ends r result
Ends-behind result same same_settings (inl k) = inl (record {
  idle = k.idle;
  ready = k.ready;
  same_stream = k.same_stream ∙ same;
  same_settings = k.same_settings ∙ same_settings;
  short = k.short;
})
Ends-behind result same same_settings (inr g) = inr (record {
  memory = g.memory;
  outcome =
      g.outcome
      ∙ ap
          (λ (version, policy, ts_out, _).
            record_ready (decode_record_compat version policy ts_out g.memory))
          same_settings;
  ready = g.ready;
  is_next = ap next_record (sym same) ∙ g.is_next;
  same_settings = g.same_settings ∙ same_settings;
})

-- A read without bytes.
idle-Kept :
    (r r' : Reader) (outcome : Outcome)
    → is_idle outcome ≡ true
    → IsReady r'
    → stream r' ≡ stream r
    → settings r' ≡ settings r
    → (length (unread r'.buffer) < 16) ⊎ (next_record (unread r'.buffer) ≡ none)
    → Ends r (outcome, r')
idle-Kept r r' outcome idle ready same same_settings short = inl (record {
  idle = idle;
  ready = ready;
  same_stream = same;
  same_settings = same_settings;
  short = short;
})

timeout_idle : (b : Bool) → is_idle (if b then heartbeat_exceeded else no_record) ≡ true
timeout_idle true = refl
timeout_idle false = refl

-- What follows a read, where the buffer held too little before it.
on_status-Ends :
    (r : Reader) (status : Status) (r' : Reader) (go_on : Reader → Outcome × Reader)
    → Filled r status r'
    → ((read_capacity r.buffer ≡ read_capacity r'.buffer)
        → (length (unread r'.buffer) < 16) ⊎ (next_record (unread r'.buffer) ≡ none))
    → (read_capacity r.buffer < read_capacity r'.buffer → Ends r' (go_on r'))
    → Ends r (on_status (status, r') go_on)
on_status-Ends r read r' go_on f short more =
    Ends-behind (go_on r') f.same_stream f.same_settings (more f.grows)
on_status-Ends r (timed_out time) r' go_on f short more =
    idle-Kept r r' _ (timeout_idle _) f.ready f.same_stream f.same_settings (short f.grows)
on_status-Ends r at_end r' go_on f short more =
    idle-Kept r r' session_closed refl f.ready f.same_stream f.same_settings (short f.grows)
on_status-Ends r pending r' go_on f short more =
    idle-Kept r r' waiting refl f.ready f.same_stream f.same_settings (short f.grows)

-- A buffer that holds less than a record holds less than one after a read without bytes.
still_short :
    (r r' : Reader)
    → IsReady r
    → IsReady r'
    → stream r' ≡ stream r
    → 0 < read_capacity r.buffer
    → read_capacity r.buffer < record_size (at_read_pos r.buffer)
    → read_capacity r.buffer ≡ read_capacity r'.buffer
    → next_record (unread r'.buffer) ≡ none
still_short r r' h h' same pos short size =
    let len = length-unread h'.valid in
    let here = size_here r h pos in
    let there = size_here r' h' (omega (arith, size)) in
    let same_size = ap record_size same in
    let first = record_size-unread r'.buffer (omega (arith, size)) in
    next_record-none (unread r'.buffer) (omega arith)

-- The loop, where the buffer holds a byte at least.
wait_for_record-Ends :
    (fuel : ℕ) (r : Reader)
    → IsReady r
    → 0 < read_capacity r.buffer
    → head_or_zero (stream r) < 256
    → 0 < fuel
    → 1021 ≤ fuel + read_capacity r.buffer
    → Ends r (wait_for_record fuel r)
unfolding wait_for_record
wait_for_record-Ends zero r h pos byte some_fuel enough = absurd (omega arith)
wait_for_record-Ends (suc fuel) r h pos byte some_fuel enough =
    let size = size_here r h pos in
    elim (Bool-cases (ltb (read_capacity r.buffer) (record_size (at_read_pos r.buffer)))) [
      | inl less ↦
          let short : read_capacity r.buffer < record_size (at_read_pos r.buffer) = ground arith in
          let small : read_capacity r.buffer < 1020 = omega (arith, size) in
          let (status, r') = fill_buffer r in
          let f = fill_buffer-Filled r h (omega arith) in
          let byte' = subst (λ s. head_or_zero s < 256) (sym f.same_stream) byte in
          rw less (
            on_status-Ends r status r' (wait_for_record fuel) f
              (λ e. inr (still_short r r' h f.ready f.same_stream pos short e))
              (λ more.
                wait_for_record-Ends fuel r' f.ready (omega arith) byte' (omega arith)
                  (omega arith)))
      | inr whole ↦ rw whole (inr (consume-Got r h pos (ground arith)))
    ]

-- `NextRecord(timeout)`, where the buffer is larger than any record and each arrival of bytes has at least
-- one: with fuel for 1021 reads it ends. Either it returns the first record of the bytes that the buffer
-- holds and that will arrive, upgraded by the policy, and leaves the bytes behind it; or it returns
-- `nullptr` or throws or still waits, has lost no byte, and the buffer holds less than a header or than
-- a record.
pub next_record_within-Ends :
    (fuel : ℕ) (r : Reader)
    → IsReady r
    → head_or_zero (stream r) < 256
    → 1021 ≤ fuel
    → Ends r (next_record_within fuel r)
unfolding next_record_within
next_record_within-Ends fuel r h byte enough = elim (Bool-cases (ltb (read_capacity r.buffer) 16)) [
  | inl less ↦
      let short : read_capacity r.buffer < 16 = ground arith in
      let (status, r') = fill_buffer r in
      let f = fill_buffer-Filled r h (omega arith) in
      let byte' = subst (λ s. head_or_zero s < 256) (sym f.same_stream) byte in
      let len = length-unread f.ready.valid in
      rw less (
        on_status-Ends r status r' (wait_for_record fuel) f (λ e. inl (omega arith))
          (λ more.
            wait_for_record-Ends fuel r' f.ready (omega arith) byte' (omega arith) (omega arith)))
  | inr enough_bytes ↦
      let some_bytes : 16 ≤ read_capacity r.buffer = ground arith in
      rw enough_bytes (wait_for_record-Ends fuel r h (omega arith) byte (omega arith) (omega arith))
]
