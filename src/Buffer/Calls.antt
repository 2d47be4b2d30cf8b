-- ===== src/Buffer/Calls.antt =====
-- What each operation of `Buffer` does to the unread bytes, the capacity and the invariant.
use databento_cpp.Base.{
  ℕ, ◌+◌, ◌-◌, ◌^◌, ◌≤◌, ◌<◌, ◌≡◌, refl, sym, ap, ◌∙◌, arith, min, max, List, ◌++◌,
}
use databento_cpp.Base.{length, take, drop, ltb, if◌then◌else◌}
use databento_cpp.Base.{length-overwrite, length-take, slice-drop, take-take}
use databento_cpp.Base.Results.{ok, err, exception}
use databento_cpp.Buffer.{Buffer, Byte, capacity, read_capacity, write_capacity, unread}
use databento_cpp.Buffer.{fill, consume, copy_in, shift, shift_for_space, make_room}
use databento_cpp.Buffer.{write, write_all, read_some, read_exact}
use databento_cpp.Buffer.Bounds.{IsValid, shift_for_space-IsValid}
use databento_cpp.Buffer.Bounds.{capacity-shift_for_space}
use databento_cpp.Buffer.Contents.{
  length-unread, unread-shift_for_space, unread-copy_in, make_room-Roomy,
}

-- A copy behind the unread bytes of a buffer with room for them.
pub filled_IsValid :
    {b : Buffer} (bytes : List Byte)
    → IsValid b
    → length bytes ≤ write_capacity b
    → IsValid (fill (length bytes) (copy_in bytes b))
unfolding fill
filled_IsValid {b} bytes v h = ground (arith, length-overwrite b.mem b.write_pos bytes)

pub capacity-filled :
    (n : ℕ) (bytes : List Byte) (b : Buffer) → capacity (fill n (copy_in bytes b)) ≡ capacity b
unfolding fill
capacity-filled n bytes b = length-overwrite b.mem b.write_pos bytes

-- `Buffer::WriteAll`, on a valid buffer and bytes that together with the unread ones number less
-- than 2^64: it keeps the invariant, queues all the bytes behind the unread ones, and grows no more
-- than it must.
pub write_all_lem :
    {b : Buffer} (bytes : List Byte)
    → IsValid b
    → read_capacity b + length bytes < 2 ^ 64
    → IsValid (write_all bytes b)
      × (unread (write_all bytes b) ≡ unread b ++ bytes)
      × (capacity (write_all bytes b) ≡ max (capacity b) (length (unread b) + length bytes))
unfolding write_all
write_all_lem {b} bytes v h =
    let roomy = make_room-Roomy (length bytes) v h in
    (
      filled_IsValid bytes roomy.valid roomy.room,
      unread-copy_in bytes roomy.valid roomy.room ∙ ap (λ t. t ++ bytes) roomy.kept,
      omega (
        arith,
        capacity-filled (length bytes) bytes (make_room (length bytes) b),
        roomy.grown,
        length-unread v,
      ),
    )

-- The room that `Write` finds after shifting.
room_for_write :
    {b : Buffer} (n : ℕ)
    → IsValid b
    → min (write_capacity (shift_for_space n b)) n ≡ min (capacity b - length (unread b)) n
unfolding shift_for_space shift
room_for_write {b} n v = ground (arith, length-overwrite b.mem 0 (unread b), length-unread v)

-- `Buffer::Write`, on a valid buffer: it returns how many bytes fit beside the unread ones, queues
-- exactly that prefix, and keeps the capacity and the invariant.
pub write_lem :
    {b : Buffer} (bytes : List Byte)
    → IsValid b
    → let (n, b') = write bytes b in
      (n ≡ min (capacity b - length (unread b)) (length bytes))
      × (unread b' ≡ unread b ++ take n bytes)
      × (capacity b' ≡ capacity b)
      × IsValid b'
unfolding write
write_lem {b} bytes v =
    let b' = shift_for_space (length bytes) b in
    let n = min (write_capacity b') (length bytes) in
    let len : length (take n bytes) ≡ n = omega (arith, length-take n bytes) in
    let v' = shift_for_space-IsValid (length bytes) v in
    (
      room_for_write (length bytes) v,
      rw len at (unread-copy_in (take n bytes) v' (omega arith))
          ∙ ap (λ t. t ++ take n bytes) (unread-shift_for_space (length bytes) v),
      capacity-filled n (take n bytes) b' ∙ capacity-shift_for_space (length bytes) b,
      rw len at (filled_IsValid (take n bytes) v' (omega arith)),
    )

-- `Buffer::ReadSome`, on a valid buffer: it gives the oldest unread bytes, as many as are wanted
-- and there, leaves the others unread, and keeps the capacity and the invariant.
pub read_some_lem :
    {b : Buffer} (n : ℕ)
    → IsValid b
    → let (ds, b') = read_some n b in
      let k = min (length (unread b)) n in
      (ds ≡ take k (unread b))
      × (unread b' ≡ drop k (unread b))
      × (capacity b' ≡ capacity b)
      × IsValid b'
unfolding read_some consume
read_some_lem {b} n v =
    let k = min (read_capacity b) n in
    let len = length-unread v in
    (
      rw len (sym (take-take k (read_capacity b) (drop b.read_pos b.mem) (omega arith))),
      rw len (rw (later) (slice-drop b.read_pos (read_capacity b) k b.mem (omega arith))),
      refl,
      record { ordered = omega arith; inside = omega arith },
    )
  where
    later :
        b.write_pos - (b.read_pos + min (read_capacity b) n)
        ≡ read_capacity b - min (read_capacity b) n
    later = omega arith

-- `Buffer::ReadExact`, on a valid buffer: it throws exactly when fewer bytes are unread than it was
-- asked for, and else does what `ReadSome` does.
pub read_exact_lem :
    {b : Buffer} (n : ℕ)
    → IsValid b
    → read_exact n b ≡ (if ltb (length (unread b)) n then err exception else ok (read_some n b))
unfolding read_exact
read_exact_lem {b} n v = rw (length-unread v)
