-- ===== src/Buffer/Runs.antt =====
-- Runs of `Buffer` on small contents.
use databento_cpp.Base.{ℕ, ◌≡◌, arith, List, [], ◌∷◌, ◌++◌, take}
use databento_cpp.Buffer.{Buffer, capacity, unread, write, write_all, read_some}
use databento_cpp.Buffer.Bounds.{IsValid}
use databento_cpp.Buffer.Queue
use databento_cpp.Buffer.Queue.{Op}
use databento_cpp.Buffer.Calls.{write_all_lem, write_lem, read_some_lem}
use databento_cpp.Buffer.Refine.{run, view, run_refines}

-- Two bytes are unread, one has been read, and one is free.
abbrev two_unread : Buffer
two_unread = record { mem = 1 ∷ 2 ∷ 3 ∷ 0 ∷ []; read_pos = 1; write_pos = 3 }

two_unread-IsValid : IsValid two_unread
two_unread-IsValid = record { ordered = omega arith; inside = omega arith }

abbrev three : List ℕ
three = 7 ∷ 8 ∷ 9 ∷ []

-- Calls that shift, grow, read too much and empty the buffer.
abbrev calls : List Op
calls =
    Op.write three
    ∷ Op.read_some 1
    ∷ Op.write_all three
    ∷ Op.read_exact 9
    ∷ Op.read_exact 5
    ∷ Op.consume 2
    ∷ Op.read_capacity
    ∷ Op.shift
    ∷ Op.capacity
    ∷ Op.reserve 32
    ∷ Op.clear
    ∷ []

run_refines_example : run calls two_unread ≡ Queue.run calls (view two_unread)
run_refines_example = run_refines calls two_unread-IsValid (omega arith)

write_all_lem_example :
    IsValid (write_all three two_unread)
    × (unread (write_all three two_unread) ≡ 2 ∷ 3 ∷ three)
    × (capacity (write_all three two_unread) ≡ 5)
write_all_lem_example = write_all_lem three two_unread-IsValid (omega arith)

write_lem_example :
    let (n, b') = write three two_unread in
    (n ≡ 2) × (unread b' ≡ (2 ∷ 3 ∷ []) ++ take n three) × (capacity b' ≡ 4) × IsValid b'
write_lem_example = write_lem three two_unread-IsValid

read_some_lem_example :
    let (ds, b') = read_some 5 two_unread in
    (ds ≡ 2 ∷ 3 ∷ []) × (unread b' ≡ []) × (capacity b' ≡ 4) × IsValid b'
read_some_lem_example = read_some_lem 5 two_unread-IsValid
