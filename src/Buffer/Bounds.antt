-- ===== src/Buffer/Bounds.antt =====
-- `Buffer` keeps its pointers in order, `buf_ <= read_pos_ <= write_pos_ <= end_`, and every copy
-- that it makes stays inside its memory.
use databento_cpp.Base.{ℕ, ◌≤◌, ◌≡◌, arith, max, length}
use databento_cpp.Base.{length-overwrite, length-replicate, replicate}
use databento_cpp.Buffer.{Buffer, capacity, read_capacity, write_capacity, unread, new}
use databento_cpp.Buffer.{fill, consume, shift, shift_for_space, reserve}

pub record IsValid (b : Buffer) : Type 0 where
  pub ordered : b.read_pos ≤ b.write_pos
  pub inside : b.write_pos ≤ length b.mem

pub new-IsValid : (n : ℕ) → IsValid (new n)
unfolding new
new-IsValid n = omega arith

pub fill-IsValid : {b : Buffer} (n : ℕ) → IsValid b → n ≤ write_capacity b → IsValid (fill n b)
unfolding fill
fill-IsValid n v h = omega arith

pub consume-IsValid : {b : Buffer} (n : ℕ) → IsValid b → n ≤ read_capacity b → IsValid (consume n b)
unfolding consume
consume-IsValid n v h = omega arith

pub capacity-shift : (b : Buffer) → capacity (shift b) ≡ capacity b
unfolding shift
capacity-shift b = ground (arith, length-overwrite b.mem 0 (unread b))

pub shift-IsValid : {b : Buffer} → IsValid b → IsValid (shift b)
unfolding shift
shift-IsValid {b} v = ground (arith, length-overwrite b.mem 0 (unread b))

pub capacity-shift_for_space : (n : ℕ) (b : Buffer) → capacity (shift_for_space n b) ≡ capacity b
unfolding shift_for_space
capacity-shift_for_space n b = ground (arith, capacity-shift b)

pub shift_for_space-IsValid : {b : Buffer} (n : ℕ) → IsValid b → IsValid (shift_for_space n b)
unfolding shift_for_space
shift_for_space-IsValid {b} n v = ground (arith, shift-IsValid v)

pub capacity-reserve : (n : ℕ) (b : Buffer) → n ≤ capacity (reserve n b)
unfolding reserve
capacity-reserve n b =
    ground (
      arith,
      length-overwrite (replicate n 0) 0 (unread b),
      length-replicate n (let z : ℕ = 0 in z),
    )

pub reserve-IsValid : {b : Buffer} (n : ℕ) → IsValid b → IsValid (reserve n b)
unfolding reserve
reserve-IsValid {b} n v =
    ground (
      arith,
      length-overwrite (replicate n 0) 0 (unread b),
      length-replicate n (let z : ℕ = 0 in z),
    )

-- `Reserve` gives the larger of what was asked for and what was there.
pub capacity-reserve_eq : (n : ℕ) (b : Buffer) → capacity (reserve n b) ≡ max (capacity b) n
unfolding reserve
capacity-reserve_eq n b =
    ground (
      arith,
      length-overwrite (replicate n 0) 0 (unread b),
      length-replicate n (let z : ℕ = 0 in z),
    )
