-- ===== src/LiveBlocking/Reader/Fill.antt =====
-- `LiveBlocking::FillBuffer` loses no byte that has arrived.
use databento_cpp.Base.{
  ℕ, ◌≤◌, ◌<◌, ◌≡◌, refl, sym, ap, ◌∙◌, arith, Bool, List, [], ◌∷◌, ◌++◌, length, take, drop, All,
  length-append, length-take, append_assoc, take-append-drop,
}
use mathlib.Core.Path.{subst}
use databento_cpp.Buffer
use databento_cpp.Buffer.{Buffer, capacity, read_capacity, write_capacity, unread, copy_in}
use databento_cpp.Buffer.Bounds.{IsValid, shift_for_space-IsValid, capacity-shift_for_space}
use databento_cpp.Buffer.Contents.{length-unread, unread-shift_for_space, unread-copy_in}
use databento_cpp.Buffer.Calls.{filled_IsValid, capacity-filled}
use databento_cpp.Upgrade.{Bytes}
use databento_cpp.Metadata.{VersionUpgradePolicy}
use databento_cpp.Decoder.{max_record_len}
use databento_cpp.Decoder.Fill.{shifted_room}
use databento_cpp.LiveBlocking.Reader.{
  Arrival, bytes, timeout, closed, Reader, Status, read, left_over, fill_from, fill_buffer,
}

-- The bytes that will arrive, up to the end of the session.
abbrev pub arriving : List Arrival → Bytes
arriving [] = []
arriving (bytes sent time ∷ later) = sent ++ arriving later
arriving (timeout time ∷ later) = arriving later
arriving (closed ∷ later) = []

-- An arrival of bytes has at least one.
abbrev pub HasBytes : Arrival → Type 0
HasBytes (bytes sent time) = 0 < length sent
HasBytes _ = Unit

abbrev pub stream : Reader → Bytes
stream r = unread r.buffer ++ arriving r.connection

abbrev pub settings : Reader → ℕ × VersionUpgradePolicy × Bool × ℕ
settings r = (r.version, r.upgrade_policy, r.send_ts_out, r.heartbeat_timeout)

-- The buffer is larger than any record.
pub record IsReady (r : Reader) : Type 0 where
  pub valid : IsValid r.buffer
  pub large : 1020 < capacity r.buffer
  pub some_bytes : All HasBytes r.connection

-- How many bytes a read adds.
abbrev pub Grows : Status → ℕ → ℕ → Type 0
Grows read before after = before < after
Grows _ before after = before ≡ after

pub record Filled (r : Reader) (status : Status) (r' : Reader) : Type 0 where
  pub ready : IsReady r'
  pub same_stream : stream r' ≡ stream r
  pub same_settings : settings r' ≡ settings r
  pub grows : Grows status (read_capacity r.buffer) (read_capacity r'.buffer)

pub arriving-left_over :
    (rest : Bytes) (time : ℕ) (later : List Arrival)
    → arriving (left_over rest time later) ≡ rest ++ arriving later
arriving-left_over [] time later = refl
arriving-left_over (b ∷ rest) time later = refl

pub HasBytes-left_over :
    (rest : Bytes) (time : ℕ) (later : List Arrival)
    → All HasBytes later
    → All HasBytes (left_over rest time later)
HasBytes-left_over [] time later h = h
HasBytes-left_over (b ∷ rest) time later h = (omega arith, h)

-- A buffer with room takes some of the bytes that have arrived.
fill_from-Filled :
    (connection : List Arrival) (r : Reader)
    → IsReady r
    → r.connection ≡ connection
    → 0 < write_capacity r.buffer
    → Filled r (fill_from connection r).0 (fill_from connection r).1
fill_from-Filled [] r h e room = record {
  ready = h;
  same_stream = refl;
  same_settings = refl;
  grows = refl;
}
fill_from-Filled (closed ∷ later) r h e room = record {
  ready = record {
    valid = h.valid;
    large = h.large;
    some_bytes = subst (All HasBytes) e h.some_bytes;
  };
  same_stream = ap (λ c. unread r.buffer ++ arriving c) (sym e);
  same_settings = refl;
  grows = refl;
}
fill_from-Filled (timeout time ∷ later) r h e room =
    let (_, behind) = subst (All HasBytes) e h.some_bytes in
    record {
      ready = record { valid = h.valid; large = h.large; some_bytes = behind };
      same_stream = ap (λ c. unread r.buffer ++ arriving c) (sym e);
      same_settings = refl;
      grows = refl;
    }
fill_from-Filled (bytes sent time ∷ later) r h e room =
    let (some_sent, behind) = subst (All HasBytes) e h.some_bytes in
    let space = write_capacity r.buffer in
    let taken = take space sent in
    let rest = drop space sent in
    let b = Buffer.fill (length taken) (copy_in taken r.buffer) in
    let u = unread r.buffer in
    let size : length taken ≤ space = omega (arith, length-take space sent) in
    let queued : unread b ≡ u ++ taken = unread-copy_in taken h.valid size in
    let valid : IsValid b = filled_IsValid taken h.valid size in
    record {
      ready = record {
        valid = valid;
        large = omega (arith, capacity-filled (length taken) taken r.buffer, h.large);
        some_bytes = HasBytes-left_over rest time later behind;
      };
      same_stream =
          ap (λ x. x ++ arriving (left_over rest time later)) queued
          ∙ ap (λ x. (u ++ taken) ++ x) (arriving-left_over rest time later)
          ∙ append_assoc u taken (rest ++ arriving later)
          ∙ ap (λ x. u ++ x) (sym (append_assoc taken rest (arriving later)))
          ∙ ap (λ x. u ++ (x ++ arriving later)) (take-append-drop space sent)
          ∙ ap (λ c. u ++ arriving c) (sym e);
      same_settings = refl;
      grows = omega (
        arith,
        length-take space sent,
        length-unread h.valid,
        length-unread valid,
        ap length queued,
        length-append u taken,
      );
    }

pub fill_buffer-Filled :
    (r : Reader)
    → IsReady r
    → read_capacity r.buffer ≤ 1020
    → Filled r (fill_buffer r).0 (fill_buffer r).1
unfolding fill_buffer
fill_buffer-Filled r h small =
    let shifted : Reader = record r { buffer = Buffer.shift_for_space max_record_len r.buffer } in
    let valid = shift_for_space-IsValid max_record_len h.valid in
    let same = unread-shift_for_space max_record_len h.valid in
    let ready : IsReady shifted = record {
      valid = valid;
      large = omega (arith, capacity-shift_for_space max_record_len r.buffer, h.large);
      some_bytes = h.some_bytes;
    } in
    let f =
      fill_from-Filled r.connection shifted ready refl
        (shifted_room h.valid (omega (arith, h.large))) in
    let (status, r') = fill_from r.connection shifted in
    let size : read_capacity shifted.buffer ≡ read_capacity r.buffer =
      omega (arith, length-unread valid, length-unread h.valid, ap length same) in
    record {
      ready = f.ready;
      same_stream = f.same_stream ∙ ap (λ u. u ++ arriving r.connection) same;
      same_settings = f.same_settings;
      grows = subst (λ n. Grows status n (read_capacity r'.buffer)) size f.grows;
    }
