-- ===== src/Buffer/Contents.antt =====
-- The unread bytes of a `Buffer`, and what moving, growing and filling it does to them.
use databento_cpp.Base.{
  ℕ, zero, suc, ◌+◌, ◌-◌, ◌^◌, ◌≤◌, ◌<◌, ◌≡◌, refl, arith, max, List, [], ◌++◌,
}
use databento_cpp.Base.{length, slice, replicate, overwrite, ltb, Bool-cases, inl, inr}
use databento_cpp.Base.{
  length-slice, length-overwrite, length-replicate, slice-overwrite_front, slice-overwrite_at,
}
use databento_cpp.Buffer.{Buffer, Byte, capacity, read_capacity, write_capacity, unread, add_size}
use databento_cpp.Buffer.{fill, copy_in, shift, shift_for_space, reserve, make_room}
use databento_cpp.Buffer.Bounds.{IsValid, shift_for_space-IsValid, reserve-IsValid}
use databento_cpp.Buffer.Bounds.{capacity-shift_for_space, capacity-reserve_eq}

pub length-unread : {b : Buffer} → IsValid b → length (unread b) ≡ read_capacity b
length-unread {b} v = omega (arith, length-slice b.read_pos (b.write_pos - b.read_pos) b.mem)

-- Moving the unread bytes to the front of a block that holds them.
unread_moved :
    (mem : List Byte) {b : Buffer}
    → IsValid b
    → read_capacity b ≤ length mem
    → slice 0 (read_capacity b - 0) (overwrite mem 0 (unread b)) ≡ unread b
unread_moved mem {b} v h =
    slice-overwrite_front (read_capacity b - 0) mem (unread b) (omega (arith, length-unread v))
      (omega arith)

slice-nil : (lo : ℕ) (xs : List Byte) (n : ℕ) → n ≡ 0 → slice lo n xs ≡ []
slice-nil lo xs zero e = refl
slice-nil lo xs (suc n) e = absurd (omega arith)

pub unread-shift : {b : Buffer} → IsValid b → unread (shift b) ≡ unread b
unfolding shift
unread-shift {b} v = ground (
  arith,
  unread_moved b.mem v,
  slice-nil 0 b.mem (read_capacity b - 0),
  slice-nil b.read_pos b.mem (read_capacity b),
)

pub unread-shift_for_space :
    {b : Buffer} (n : ℕ) → IsValid b → unread (shift_for_space n b) ≡ unread b
unfolding shift_for_space
unread-shift_for_space {b} n v = ground (arith, unread-shift v)

pub unread-reserve : {b : Buffer} (n : ℕ) → IsValid b → unread (reserve n b) ≡ unread b
unfolding reserve
unread-reserve {b} n v =
    ground (arith, unread_moved (replicate n 0) v, length-replicate n (let z : ℕ = 0 in z))

-- Copying bytes behind the unread ones, where there is room for them, queues them.
pub unread-copy_in :
    {b : Buffer} (bytes : List Byte)
    → IsValid b
    → length bytes ≤ write_capacity b
    → unread (fill (length bytes) (copy_in bytes b)) ≡ unread b ++ bytes
unfolding fill
unread-copy_in {b} bytes v h = rw (grown) (
    slice-overwrite_at b.read_pos (read_capacity b) b.write_pos b.mem bytes (omega arith)
      (omega arith))
  where
    grown : b.write_pos + length bytes - b.read_pos ≡ read_capacity b + length bytes
    grown = omega arith

-- `WriteAll` makes room for what it copies: no byte queued is lost, and the block grows only when
-- the bytes would not fit behind the unread ones moved to the front.
pub record Roomy (n : ℕ) (b b' : Buffer) : Type 0 where
  pub valid : IsValid b'
  pub room : n ≤ write_capacity b'
  pub kept : unread b' ≡ unread b
  pub grown : capacity b' ≡ max (capacity b) (read_capacity b + n)

pub room_shifted :
    {b : Buffer} (n : ℕ)
    → IsValid b
    → n ≤ capacity b - read_capacity b
    → n ≤ write_capacity (shift_for_space n b)
unfolding shift_for_space shift
room_shifted {b} n v h = ground (arith, length-overwrite b.mem 0 (unread b))

room_reserved :
    (b : Buffer) (n : ℕ)
    → capacity b < read_capacity b + n
    → n ≤ write_capacity (reserve (read_capacity b + n) b)
unfolding reserve
room_reserved b n h = ground (
  arith,
  length-overwrite (replicate (read_capacity b + n) 0) 0 (unread b),
  length-replicate (read_capacity b + n) (let z : ℕ = 0 in z),
)

pub make_room-Roomy :
    {b : Buffer} (n : ℕ) → IsValid b → read_capacity b + n < 2 ^ 64 → Roomy n b (make_room n b)
unfolding make_room
make_room-Roomy {b} n v h = elim (Bool-cases (ltb (capacity b - read_capacity b) n)) [
  | inl more ↦
      let sum : add_size (read_capacity b) n ≡ read_capacity b + n = omega arith in
      rw (more, sum)
        (record {
          valid = reserve-IsValid (read_capacity b + n) v;
          room = room_reserved b n (ground arith);
          kept = unread-reserve (read_capacity b + n) v;
          grown = capacity-reserve_eq (read_capacity b + n) b;
        })
  | inr fits ↦
      let enough : n ≤ capacity b - read_capacity b = ground arith in
      rw fits (record {
        valid = shift_for_space-IsValid n v;
        room = room_shifted n v enough;
        kept = unread-shift_for_space n v;
        grown = omega (arith, capacity-shift_for_space n b);
      })
]
