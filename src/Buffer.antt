-- ===== src/Buffer.antt =====
-- src/detail/buffer.cpp and include/databento/detail/buffer.hpp: the byte buffer behind every
-- reader. The block of memory is a list of bytes, so `Capacity()` is its length, and the three
-- pointers into it are offsets. Nothing is promised of freshly allocated bytes: the model fills
-- them with 0, and no theorem looks at a byte that was not written.
pub mod Bounds
pub mod Queue
pub mod Contents
pub mod Calls
pub mod Refine
mod Runs
use databento_cpp.Base.{ℕ, ◌+◌, ◌-◌, ◌*◌, ◌%◌, ◌^◌, min, Bool, not, ◌&&◌, List}
use databento_cpp.Base.{ltb, leb, ◌==◌, if◌then◌else◌, length, slice, replicate, overwrite}
use databento_cpp.Base.Results.{Result, ok, err, exception}

-- `std::byte`
abbrev pub Byte : Type 0
Byte = ℕ

pub record Buffer : Type 0 where
  pub mem : List Byte
  pub read_pos : ℕ
  pub write_pos : ℕ

abbrev pub default_buf_size : ℕ
default_buf_size = 64 * 2 ^ 10

-- `size_t` addition.
abbrev pub add_size : ℕ → ℕ → ℕ
add_size a b = (a + b) % 2 ^ 64

-- `AlignedNew`: the contents are unspecified.
abbrev pub aligned_new : ℕ → List Byte
aligned_new capacity = replicate capacity 0

unfoldable pub new : ℕ → Buffer
new init_capacity = record { mem = aligned_new init_capacity; read_pos = 0; write_pos = 0 }

-- `Buffer::Capacity`, `ReadCapacity` and `WriteCapacity`.
abbrev pub capacity : Buffer → ℕ
capacity b = length b.mem

abbrev pub read_capacity : Buffer → ℕ
read_capacity b = b.write_pos - b.read_pos

abbrev pub write_capacity : Buffer → ℕ
write_capacity b = length b.mem - b.write_pos

-- The bytes between `ReadBegin()` and `ReadEnd()`.
abbrev pub unread : Buffer → List Byte
unread b = slice b.read_pos (b.write_pos - b.read_pos) b.mem

unfoldable pub fill : ℕ → Buffer → Buffer
fill n b = record b { write_pos = b.write_pos + n }

unfoldable pub consume : ℕ → Buffer → Buffer
consume n b = record b { read_pos = b.read_pos + n }

unfoldable pub clear : Buffer → Buffer
clear b = record b { read_pos = 0; write_pos = 0 }

-- `std::copy(data, data + length, WriteBegin())`
abbrev pub copy_in : List Byte → Buffer → Buffer
copy_in bytes b = record b { mem = overwrite b.mem b.write_pos bytes }

unfoldable pub shift : Buffer → Buffer
shift b =
    let moved = if read_capacity b == 0 then b.mem else overwrite b.mem 0 (unread b) in
    record { mem = moved; read_pos = 0; write_pos = read_capacity b }

unfoldable pub shift_for_space : ℕ → Buffer → Buffer
shift_for_space needed b =
    if ltb (write_capacity b) needed && not (b.read_pos == 0) then shift b else b

unfoldable pub reserve : ℕ → Buffer → Buffer
reserve n b = if leb n (capacity b) then b else record {
  mem = overwrite (aligned_new n) 0 (unread b);
  read_pos = 0;
  write_pos = read_capacity b;
}

-- `Write` returns how many bytes it took; the bytes are the `length` bytes from `data` on.
unfoldable pub write : List Byte → Buffer → ℕ × Buffer
write bytes b =
    let b' = shift_for_space (length bytes) b in
    let write_size = min (write_capacity b') (length bytes) in
    (write_size, fill write_size (copy_in (slice 0 write_size bytes) b'))

unfoldable pub make_room : ℕ → Buffer → Buffer
make_room n b =
    if ltb (capacity b - read_capacity b) n
    then reserve (add_size (read_capacity b) n) b
    else shift_for_space n b

unfoldable pub write_all : List Byte → Buffer → Buffer
write_all bytes b = fill (length bytes) (copy_in bytes (make_room (length bytes) b))

-- `ReadSome` copies what it reads to its caller; that is the list returned. The overload with a
-- timeout ignores it, and its status is always `Status::Ok`.
unfoldable pub read_some : ℕ → Buffer → List Byte × Buffer
read_some max_length b =
    let read_size = min (read_capacity b) max_length in
    (slice b.read_pos read_size b.mem, consume read_size b)

unfoldable pub read_exact : ℕ → Buffer → Result (List Byte × Buffer)
read_exact n b = if ltb (read_capacity b) n then err exception else ok (read_some n b)
