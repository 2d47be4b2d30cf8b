-- ===== src/Buffer/Refine.antt =====
-- `Buffer` implements the queue of `Queue`.
use databento_cpp.Base.{
  ℕ, ◌+◌, ◌-◌, ◌^◌, ◌≤◌, ◌<◌, ◌≡◌, refl, sym, ap, ◌∙◌, arith, min, true, false, List, [], ◌∷◌, ◌++◌,
}
use databento_cpp.Base.{length, take, ltb, Bool-cases, inl, inr}
use databento_cpp.Base.{length-append, length-take, length-drop}
use databento_cpp.Base.Results.{Result, ok, err, overrun, exception}
use databento_cpp.Buffer.{Buffer, Byte, capacity, unread}
use mathlib.Core.Path.{ap₂, subst}
use databento_cpp.Buffer.{clear, shift, shift_for_space, reserve, consume, read_capacity}
use databento_cpp.Buffer.{write, write_all, read_some, read_exact}
use databento_cpp.Buffer.Bounds.{IsValid, shift-IsValid, shift_for_space-IsValid, reserve-IsValid}
use databento_cpp.Buffer.Bounds.{capacity-shift, capacity-shift_for_space, capacity-reserve_eq}
use databento_cpp.Buffer.Contents.{
  length-unread, unread-shift, unread-shift_for_space, unread-reserve,
}
use databento_cpp.Buffer.Queue
use databento_cpp.Buffer.Queue.{Queue, Op, Reply, done, count, got, threw}
use databento_cpp.Buffer.Calls.{write_all_lem, write_lem, read_some_lem, read_exact_lem}

-- An exception leaves the buffer as it was.
abbrev answer : Buffer → Result (List Byte × Buffer) → Reply × Buffer
answer b (ok (ds, b')) = (got ds, b')
answer b (err e) = (threw, b)
answer b overrun = (threw, b)

-- A call on a `Buffer`, and what its caller sees.
pub step : Op → Buffer → Reply × Buffer
step (Op.write ds) b = let (n, b') = write ds b in (count n, b')
step (Op.write_all ds) b = (done, write_all ds b)
step (Op.read_some n) b = let (ds, b') = read_some n b in (got ds, b')
step (Op.read_exact n) b = answer b (read_exact n b)
step (Op.consume n) b = (done, consume (min (read_capacity b) n) b)
step Op.read_capacity b = (count (read_capacity b), b)
step Op.capacity b = (count (capacity b), b)
step (Op.reserve n) b = (done, reserve n b)
step (Op.shift_for_space n) b = (done, shift_for_space n b)
step Op.shift b = (done, shift b)
step Op.clear b = (done, clear b)

pub run : List Op → Buffer → List Reply
run [] b = []
run (op ∷ ops) b = let (r, b') = step op b in r ∷ run ops b'

abbrev pub view : Buffer → Queue
view b = record { bytes = unread b; size = capacity b }

same_view : {q r : Queue} → q.bytes ≡ r.bytes → q.size ≡ r.size → q ≡ r
same_view p s = λ i. record { bytes = p i; size = s i }

-- How many bytes the calls ask to queue.
abbrev pub demand : List Op → ℕ
demand [] = 0
demand (Op.write ds ∷ ops) = length ds + demand ops
demand (Op.write_all ds ∷ ops) = length ds + demand ops
demand (op ∷ ops) = demand ops

-- One call on a valid buffer returns what the queue returns and leaves the queue's bytes.
record Agrees (op : Op) (b : Buffer) : Type 0 where
  reply : (step op b).0 ≡ (Queue.step op (view b)).0
  state : view (step op b).1 ≡ (Queue.step op (view b)).1
  valid : IsValid (step op b).1

read_exact_short :
    {b : Buffer} (n : ℕ)
    → IsValid b
    → ltb (length (unread b)) n ≡ true
    → read_exact n b ≡ err exception
read_exact_short n v short = read_exact_lem n v ∙ rw short

read_exact_enough :
    {b : Buffer} (n : ℕ)
    → IsValid b
    → ltb (length (unread b)) n ≡ false
    → read_exact n b ≡ ok (read_some n b)
read_exact_enough n v enough = read_exact_lem n v ∙ rw enough

-- `ReadExact` throws and changes nothing, or reads.
read_exact-Agrees : {b : Buffer} (n : ℕ) → IsValid b → Agrees (Op.read_exact n) b
unfolding step Queue.step
read_exact-Agrees {b} n v = elim (Bool-cases (ltb (length (unread b)) n)) [
  | inl short ↦
      let call : step (Op.read_exact n) b ≡ (threw, b) =
        ap (answer b) (read_exact_short n v short) in
      record {
        reply = ap (λ (t : Reply × Buffer). t.0) call ∙ rw short;
        state = ap (λ (t : Reply × Buffer). view t.1) call ∙ rw short;
        valid = subst (λ (t : Reply × Buffer). IsValid t.1) (sym call) v;
      }
  | inr enough ↦
      let r = read_some_lem n v in
      let k : min (length (unread b)) n ≡ n = ground arith in
      let call : step (Op.read_exact n) b ≡ (got (read_some n b).0, (read_some n b).1) =
        ap (answer b) (read_exact_enough n v enough) in
      record {
        reply = ap (λ (t : Reply × Buffer). t.0) call ∙ rw enough (ap got (rw k at r.0));
        state =
            ap (λ (t : Reply × Buffer). view t.1) call ∙ rw enough (same_view (rw k at r.1) r.2);
        valid = subst (λ (t : Reply × Buffer). IsValid t.1) (sym call) r.3;
      }
]

step-Agrees :
    (op : Op) {b : Buffer} → IsValid b → length (unread b) + demand (op ∷ []) < 2 ^ 64 → Agrees op b
unfolding step Queue.step clear read_some
step-Agrees (Op.write ds) {b} v h =
    let w = write_lem ds v in
    record {
      reply = ap count w.0;
      state = same_view (w.1 ∙ ap (λ n. unread b ++ take n ds) w.0) w.2;
      valid = w.3;
    }
step-Agrees (Op.write_all ds) {b} v h =
    let w = write_all_lem ds v (omega (arith, length-unread v)) in
    record { reply = refl; state = same_view w.1 w.2; valid = w.0 }
step-Agrees (Op.read_some n) v h =
    let r = read_some_lem n v in
    record { reply = ap got r.0; state = same_view r.1 r.2; valid = r.3 }
step-Agrees (Op.read_exact n) v h = read_exact-Agrees n v
step-Agrees (Op.consume n) v h =
    let r = read_some_lem n v in record { reply = refl; state = same_view r.1 r.2; valid = r.3 }
step-Agrees Op.read_capacity v h = record {
  reply = ap count (sym (length-unread v));
  state = refl;
  valid = v;
}
step-Agrees Op.capacity v h = record { reply = refl; state = refl; valid = v }
step-Agrees (Op.reserve n) {b} v h = record {
  reply = refl;
  state = same_view (unread-reserve n v) (capacity-reserve_eq n b);
  valid = reserve-IsValid n v;
}
step-Agrees (Op.shift_for_space n) {b} v h = record {
  reply = refl;
  state = same_view (unread-shift_for_space n v) (capacity-shift_for_space n b);
  valid = shift_for_space-IsValid n v;
}
step-Agrees Op.shift {b} v h = record {
  reply = refl;
  state = same_view (unread-shift v) (capacity-shift b);
  valid = shift-IsValid v;
}
step-Agrees Op.clear v h = record { reply = refl; state = refl; valid = omega arith }

-- A call queues no more than it asks to.
step-demand :
    (op : Op) (ops : List Op) (q : Queue)
    → length (Queue.step op q).1.bytes + demand ops ≤ length q.bytes + demand (op ∷ ops)
unfolding Queue.step
step-demand (Op.write ds) ops q = omega (
  arith,
  length-append q.bytes (take (min (q.size - length q.bytes) (length ds)) ds),
  length-take (min (q.size - length q.bytes) (length ds)) ds,
)
step-demand (Op.write_all ds) ops q = omega (arith, length-append q.bytes ds)
step-demand (Op.read_some n) ops q = omega (arith, length-drop (min (length q.bytes) n) q.bytes)
step-demand (Op.read_exact n) ops q = ground (arith, length-drop n q.bytes)
step-demand (Op.consume n) ops q = omega (arith, length-drop (min (length q.bytes) n) q.bytes)
step-demand Op.read_capacity ops q = omega arith
step-demand Op.capacity ops q = omega arith
step-demand (Op.reserve n) ops q = omega arith
step-demand (Op.shift_for_space n) ops q = omega arith
step-demand Op.shift ops q = omega arith
step-demand Op.clear ops q = omega arith

-- No sequence of calls of `Write`, `WriteAll`, `ReadSome`, `ReadExact`, `Consume` (of no more than is
-- unread), `ReadCapacity`, `Capacity`, `Reserve`, `ShiftForSpace`, `Shift` and `Clear` tells a valid
-- `Buffer` from the queue of its unread bytes, while these and the bytes that are to be queued number less
-- than 2^64: every call returns, or throws, what it does there. `WriteCapacity` and `Fill`, which show
-- where the bytes stand in the block, are not among these calls.
pub run_refines :
    (ops : List Op) {b : Buffer}
    → IsValid b
    → length (unread b) + demand ops < 2 ^ 64
    → run ops b ≡ Queue.run ops (view b)
unfolding run Queue.run
run_refines [] v h = refl
run_refines (op ∷ ops) {b} v h =
    let a = step-Agrees op v (one op (omega arith)) in
    let rest =
      run_refines ops a.valid
        (omega (arith, step-demand op ops (view b), ap (λ (q : Queue). length q.bytes) a.state)) in
    ap₂ ◌∷◌ a.reply (rest ∙ ap (Queue.run ops) a.state)
  where
    one :
        (op : Op)
        → length (unread b) + demand (op ∷ ops) < 2 ^ 64
        → length (unread b) + demand (op ∷ []) < 2 ^ 64
    one (Op.write ds) l = omega arith
    one (Op.write_all ds) l = omega arith
    one _ l = omega arith
