-- ===== src/Buffer/Queue.antt =====
-- What a client may expect of a `Buffer`: a queue of bytes with a capacity, oldest byte first.
-- `Reserve` and `WriteAll` enlarge it, `Write` takes what fits. Where the bytes stand in the block does
-- not show to a client that leaves out `WriteCapacity`, `Fill` and the pointers.
use databento_cpp.Base.{ℕ, ◌+◌, ◌-◌, min, max, List, [], ◌∷◌, ◌++◌}
use databento_cpp.Base.{length, take, drop, ltb, if◌then◌else◌}

pub record Queue : Type 0 where
  pub bytes : List ℕ
  pub size : ℕ

-- A client's call, and what it sees of it. It consumes no more than is unread.
pub data Op : Type 0 where
  write write_all : List ℕ → Op
  read_some read_exact reserve shift_for_space : ℕ → Op
  consume : ℕ → Op
  read_capacity capacity shift clear : Op

pub data Reply : Type 0 where
  done : Reply
  count : ℕ → Reply
  got : List ℕ → Reply
  threw : Reply

unfoldable pub step : Op → Queue → Reply × Queue
step (write ds) q =
    let n = min (q.size - length q.bytes) (length ds) in
    (count n, record q { bytes = q.bytes ++ take n ds })
step (write_all ds) q =
    (done, record { bytes = q.bytes ++ ds; size = max q.size (length q.bytes + length ds) })
step (read_some n) q =
    let k = min (length q.bytes) n in (got (take k q.bytes), record q { bytes = drop k q.bytes })
step (read_exact n) q =
    if ltb (length q.bytes) n
    then (threw, q)
    else (got (take n q.bytes), record q { bytes = drop n q.bytes })
step (consume n) q = (done, record q { bytes = drop (min (length q.bytes) n) q.bytes })
step read_capacity q = (count (length q.bytes), q)
step capacity q = (count q.size, q)
step (reserve n) q = (done, record q { size = max q.size n })
step (shift_for_space n) q = (done, q)
step shift q = (done, q)
step clear q = (done, record q { bytes = [] })

unfoldable pub run : List Op → Queue → List Reply
run [] q = []
run (op ∷ ops) q = let (r, q') = step op q in r ∷ run ops q'
