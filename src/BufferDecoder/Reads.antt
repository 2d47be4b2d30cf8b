-- ===== src/BufferDecoder/Reads.antt =====
-- `ShiftForSpace`, `ReadSome` and `Fill` in `DbnBufferDecoder::Process`: in every state there is room, and
-- what is read is queued behind what is unread.
use databento_cpp.Base.{
  ℕ, ◌+◌, ◌<◌, ◌≡◌, refl, sym, ap, ◌∙◌, arith, ◌⊎◌, List, [], ◌++◌, length, length-append,
  append_assoc, append-nil,
}
use mathlib.Core.Path.{subst}
use databento_cpp.Buffer
use databento_cpp.Buffer.{Buffer, capacity, read_capacity, write_capacity, unread, copy_in}
use databento_cpp.Buffer.Bounds.{shift_for_space-IsValid, capacity-shift_for_space}
use databento_cpp.Buffer.Contents.{length-unread, unread-shift_for_space, unread-copy_in}
use databento_cpp.Buffer.Calls.{filled_IsValid, capacity-filled}
use databento_cpp.Upgrade.{Bytes}
use databento_cpp.Decoder.{max_record_len}
use databento_cpp.Decoder.Fill.{shifted_room, nil_of_length}
use databento_cpp.BufferDecoder.{
  ZstdStream, BufferDecoder, DecoderState, init, metadata, records, read_more,
}
use databento_cpp.BufferDecoder.Session.{Session, Owes, Lacks, Good, Waiting}

module _ {Stream : Type 0} (session : Session) where
  -- A state that waits has not filled the buffer.
  Lacks-room :
      (state : DecoderState) (d : BufferDecoder Stream) (bytes : Bytes) (recs : List Bytes)
      (tail u : Bytes)
      → Owes session state d bytes recs tail
      → Lacks state d.bytes_needed u
      → 1020 < capacity d.dbn_buffer
      → length u < capacity d.dbn_buffer
  Lacks-room init d bytes recs tail u owes lacks large = omega arith
  Lacks-room metadata d bytes recs tail u (_, _, _, needed, _, room) lacks large = omega arith
  Lacks-room records d bytes recs tail u owes (none_next, short) large = omega arith

  -- A state knows the same of another buffer that is as large.
  pub Owes-same :
      (state : DecoderState) (d : BufferDecoder Stream) (input : Stream) (b : Buffer)
      (bytes bytes' : Bytes) (recs : List Bytes) (tail : Bytes)
      → bytes' ≡ bytes
      → capacity b ≡ capacity d.dbn_buffer
      → Owes session state d bytes recs tail
      → Owes session state (record d { zstd_stream = input; dbn_buffer = b }) bytes' recs tail
  Owes-same init d input b bytes bytes' recs tail e size (same, calls) = (e ∙ same, calls)
  Owes-same metadata d input b bytes bytes' recs tail e size
        (same, calls, version, needed, plain, room) =
      (e ∙ same, calls, version, needed, plain, omega arith)
  Owes-same records d input b bytes bytes' recs tail e size (same, calls, plain) =
      (e ∙ same, calls, plain)

module _ (z : ZstdStream) where
  open z use {Stream, rest, read_some}

  -- A stream has delivered nothing, though there was room for a byte.
  pub record Stuck (after : Stream) : Type 0 where
    pub before : Stream
    pub room : ℕ
    pub some_room : 0 < room
    pub nothing_read : (read_some room before).0 ≡ []
    pub is_after : (read_some room before).1 ≡ after

  -- A stream that has nothing to deliver, or that delivered nothing when it was asked.
  abbrev pub Idle : Stream → Type 0
  Idle after = (rest after [] ≡ []) ⊎ Stuck after

module _ (z : ZstdStream) (session : Session) where
  open z use {Stream, rest, read_some, read_some_in_order, read_some_bounded}

  -- `ahead` are the compressed bytes of later chunks.
  pub record ReadMore (d : BufferDecoder Stream) (ahead : List ℕ) (recs : List Bytes) (tail : Bytes)
      (n : ℕ) (d' : BufferDecoder Stream) : Type 0 where
    pub good : Good session d' (rest d'.zstd_stream ahead) recs tail
    pub fewer : length (rest d'.zstd_stream ahead) + n ≡ length (rest d.zstd_stream ahead)
    pub nothing :
        n ≡ 0 → Stuck z d'.zstd_stream × Waiting session d' (rest d'.zstd_stream ahead) recs tail
    pub same_seen : d'.seen ≡ d.seen

  pub read_more-ReadMore :
      (d : BufferDecoder Stream) (ahead : List ℕ) (recs : List Bytes) (tail : Bytes)
      → Waiting session d (rest d.zstd_stream ahead) recs tail
      → ReadMore d ahead recs tail (read_more z d).0 (read_more z d).1
  unfolding read_more
  read_more-ReadMore d ahead recs tail w =
      let g = w.good in
      let b = Buffer.shift_for_space max_record_len d.dbn_buffer in
      let u = unread d.dbn_buffer in
      let v = shift_for_space-IsValid max_record_len g.valid in
      let input = d.zstd_stream in
      let bytes = (read_some (write_capacity b) input).0 in
      let input' = (read_some (write_capacity b) input).1 in
      let old = rest input ahead in
      let new = rest input' ahead in
      let fits = read_some_bounded (write_capacity b) input in
      let in_order = read_some_in_order (write_capacity b) input ahead in
      let b' = Buffer.fill (length bytes) (copy_in bytes b) in
      let kept : unread b ≡ u = unread-shift_for_space max_record_len g.valid in
      let queued : unread b' ≡ u ++ bytes =
        unread-copy_in bytes v fits ∙ ap (λ x. x ++ bytes) kept in
      let size : capacity b' ≡ capacity d.dbn_buffer = omega (
        arith,
        capacity-filled (length bytes) bytes b,
        capacity-shift_for_space max_record_len d.dbn_buffer,
      ) in
      let room : 0 < write_capacity b = shifted_room g.valid (
        omega (
          arith,
          length-unread g.valid,
          Lacks-room session d.state d (u ++ old) recs tail u g.owes w.lacks g.large,
        )) in
      let same : unread b' ++ new ≡ u ++ old =
        ap (λ x. x ++ new) queued ∙ append_assoc u bytes new ∙ ap (λ x. u ++ x) in_order in
      let good : Good session (record d { zstd_stream = input'; dbn_buffer = b' }) new recs tail =
        record {
          valid = filled_IsValid bytes v fits;
          large = omega (arith, g.large);
          policy = g.policy;
          callback = g.callback;
          owes =
              Owes-same session d.state d input' b' (u ++ old) (unread b' ++ new) recs tail same
                size g.owes;
        } in
      record {
        good = good;
        fewer = omega (arith, length-append bytes new, ap length in_order);
        nothing = λ e.
            let none_read : bytes ≡ [] = nil_of_length bytes e in
            (
              record {
                before = input;
                room = write_capacity b;
                some_room = room;
                nothing_read = none_read;
                is_after = refl;
              },
              record {
                good = good;
                lacks =
                    subst (λ x. Lacks d.state d.bytes_needed x)
                      (sym (queued ∙ ap (λ x. u ++ x) none_read ∙ append-nil u)) w.lacks;
              },
            );
        same_seen = refl;
      }
