-- ===== src/BufferDecoder/Loop.antt =====
-- The outer loop of `DbnBufferDecoder::Process`: it ends once all that the stream delivers is handled.
use databento_cpp.Base.{
  ℕ, zero, suc, ◌≤◌, ◌<◌, ◌≡◌, refl, sym, ap, ◌∙◌, arith, ◌⊎◌, inl, inr, some, List, length, ◌==◌,
  Bool-cases,
}
use mathlib.Core.Path.{subst}
use databento_cpp.Base.Results.{ok}
use databento_cpp.Upgrade.{Bytes}
use databento_cpp.Store.{continue, RecordCallback}
use databento_cpp.Store.Replay.{visited}
use databento_cpp.BufferDecoder.{
  ZstdStream, BufferDecoder, Processed, on_state, then_loop, read_more, process_loop,
}
use databento_cpp.BufferDecoder.Session.{Session, AreRecords, Waiting, Stopped, last_answer}
use databento_cpp.BufferDecoder.States.{on_state-Handled}
use databento_cpp.BufferDecoder.Reads.{Idle, read_more-ReadMore}

module _ (z : ZstdStream) (session : Session) where
  open z use {Stream, rest}

  -- What the stream delivered has been handled; `ahead` are the compressed bytes of later chunks.
  pub record Drained (callback : RecordCallback) (seen recs : List Bytes) (tail : Bytes)
      (ahead : List ℕ) (bound : ℕ) (result : Processed Stream) : Type 0 where
    pub after : BufferDecoder Stream
    pub left : List Bytes
    pub returned : result ≡ some (ok (continue, after))
    pub are_records : AreRecords left tail
    pub waiting : Waiting session after (rest after.zstd_stream ahead) left tail
    pub idle : Idle z after.zstd_stream
    pub fewer : length (rest after.zstd_stream ahead) ≤ bound
    pub same_end : visited callback after.seen left ≡ visited callback seen recs
    pub same_answer : last_answer callback after.seen left ≡ last_answer callback seen recs

  abbrev pub Done :
      RecordCallback → List Bytes → List Bytes → Bytes → List ℕ → ℕ → Processed Stream → Type 0
  Done callback seen recs tail ahead bound result =
      Stopped session callback seen recs result ⊎ Drained callback seen recs tail ahead bound result

  -- Nothing follows a step that has stopped.
  pub Stopped-then :
      (callback : RecordCallback) (seen recs : List Bytes) (result : Processed Stream)
      (loop : BufferDecoder Stream → Processed Stream)
      → Stopped session callback seen recs result
      → Stopped session callback seen recs (then_loop result loop)
  Stopped-then callback seen recs result loop h = record {
    after = h.after;
    returned = ap (λ o. then_loop o loop) h.returned;
    told_records = h.told_records;
    told_stop = h.told_stop;
    told_metadata = h.told_metadata;
  }

  -- What follows a step that has not stopped.
  pub continued_then :
      (callback : RecordCallback) (seen recs : List Bytes) (tail : Bytes) (ahead : List ℕ)
      (bound : ℕ) (result : Processed Stream) (loop : BufferDecoder Stream → Processed Stream)
      (after : BufferDecoder Stream) (left : List Bytes)
      → result ≡ some (ok (continue, after))
      → visited callback after.seen left ≡ visited callback seen recs
      → last_answer callback after.seen left ≡ last_answer callback seen recs
      → Done callback after.seen left tail ahead bound (loop after)
      → Done callback seen recs tail ahead bound (then_loop result loop)
  continued_then callback seen recs tail ahead bound result loop after left returned same_end
        same_answer done =
      let step : then_loop result loop ≡ loop after = ap (λ o. then_loop o loop) returned in
      elim done [
        | inl s ↦ inl (record {
          after = s.after;
          returned = step ∙ s.returned;
          told_records = s.told_records ∙ same_end;
          told_stop = sym same_answer ∙ s.told_stop;
          told_metadata = s.told_metadata;
        })
        | inr s ↦ inr (record {
          after = s.after;
          left = s.left;
          returned = step ∙ s.returned;
          are_records = s.are_records;
          waiting = s.waiting;
          idle = s.idle;
          fewer = s.fewer;
          same_end = s.same_end ∙ same_end;
          same_answer = s.same_answer ∙ same_answer;
        })
      ]

  pub process_loop-Done :
      (fuel bound : ℕ) (callback : RecordCallback) (d : BufferDecoder Stream) (ahead : List ℕ)
      (recs : List Bytes) (tail : Bytes)
      → AreRecords recs tail
      → Waiting session d (rest d.zstd_stream ahead) recs tail
      → length (rest d.zstd_stream ahead) < fuel
      → length (rest d.zstd_stream ahead) ≤ bound
      → Done callback d.seen recs tail ahead bound (process_loop z fuel callback d)
  unfolding process_loop
  process_loop-Done zero bound callback d ahead recs tail are w enough within = absurd (omega arith)
  process_loop-Done (suc fuel) bound callback d ahead recs tail are w enough within =
      let n = (read_more z d).0 in
      let d1 = (read_more z d).1 in
      let m = read_more-ReadMore z session d ahead recs tail w in
      elim (Bool-cases (n == 0)) [
        | inl empty ↦
            let (stuck, waiting) = m.nothing (ground arith) in
            rw empty (
              inr (record {
                after = d1;
                left = recs;
                returned = refl;
                are_records = are;
                waiting = waiting;
                idle = inr stuck;
                fewer = omega (arith, m.fewer);
                same_end = ap (λ s. visited callback s recs) m.same_seen;
                same_answer = ap (λ s. last_answer callback s recs) m.same_seen;
              }))
        | inr some_read ↦
            let future = rest d1.zstd_stream ahead in
            let handled =
              on_state-Handled session d1.state callback d1 future recs tail are m.good refl in
            let fewer : length (rest d1.zstd_stream ahead) < fuel = ground (arith, m.fewer) in
            let step = on_state d1.state callback d1 in
            let loop = process_loop z fuel callback in
            rw some_read (
              subst (λ s. Done callback s recs tail ahead bound (then_loop step loop)) m.same_seen
                (elim handled [
                  | inl h ↦ inl (Stopped-then callback d1.seen recs step loop h)
                  | inr c ↦
                      let waiting =
                        subst (λ i. Waiting session c.after (rest i ahead) c.left tail)
                          (sym c.same_input) c.waiting in
                      let enough' : length (rest c.after.zstd_stream ahead) < fuel =
                        omega (arith, ap (λ i. length (rest i ahead)) c.same_input) in
                      continued_then callback d1.seen recs tail ahead bound step loop c.after c.left
                        c.returned c.same_end c.same_answer
                        (process_loop-Done fuel bound callback c.after ahead c.left tail
                          c.are_records waiting enough'
                          (omega (arith, m.fewer, ap (λ i. length (rest i ahead)) c.same_input)))
                ]))
      ]
