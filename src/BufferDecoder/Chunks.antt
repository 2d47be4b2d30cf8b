-- ===== src/BufferDecoder/Chunks.antt =====
-- `DbnBufferDecoder::Process`, chunk by chunk, against the records of all that the chunks decompress to.
use databento_cpp.Base.{
  ℕ, ◌≤◌, ◌<◌, ◌≡◌, refl, sym, ap, arith, inl, inr, List, [], ◌∷◌, ◌++◌, length,
}
use mathlib.Core.Path.{subst}
use databento_cpp.Buffer.{unread}
use databento_cpp.Upgrade.{Bytes}
use databento_cpp.Store.{RecordCallback}
use databento_cpp.BufferDecoder.{ZstdStream, BufferDecoder, Processed, process, process_all}
use databento_cpp.BufferDecoder.Session.{Session, AreRecords, Waiting}
use databento_cpp.BufferDecoder.Loop.{Done, Stopped-then, continued_then, process_loop-Done}
use databento_cpp.BufferDecoder.Reads.{Idle, Owes-same}

-- What was written in all.
abbrev pub concat : List (List ℕ) → List ℕ
concat [] = []
concat (chunk ∷ chunks) = chunk ++ concat chunks

module _ (z : ZstdStream) (session : Session) where
  open z use {Stream, rest, write_all}

  -- The bytes that wait for a decoder do not matter to what it has read.
  other_input :
      (d : BufferDecoder Stream) (input : Stream) (future : Bytes) (recs : List Bytes)
      (tail : Bytes)
      → Waiting session d future recs tail
      → Waiting session (record d { zstd_stream = input }) future recs tail
  other_input d input future recs tail w =
      let g = w.good in
      let bytes = unread d.dbn_buffer ++ future in
      record {
        good = record {
          valid = g.valid;
          large = g.large;
          policy = g.policy;
          callback = g.callback;
          owes =
              Owes-same session d.state d input d.dbn_buffer bytes bytes recs tail refl refl g.owes;
        };
        lacks = w.lacks;
      }

  -- `Process` on a chunk.
  pub process-Done :
      (fuel : ℕ) (callback : RecordCallback) (chunk ahead : List ℕ) (d : BufferDecoder Stream)
      (recs : List Bytes) (tail : Bytes)
      → AreRecords recs tail
      → Waiting session d (rest d.zstd_stream (chunk ++ ahead)) recs tail
      → length (rest d.zstd_stream (chunk ++ ahead)) < fuel
      → Done z session callback d.seen recs tail ahead
          (length (rest d.zstd_stream (chunk ++ ahead)))
          (process z fuel callback chunk d)
  unfolding process
  process-Done fuel callback chunk ahead d recs tail are w enough =
      let input = write_all chunk d.zstd_stream in
      let d' : BufferDecoder Stream = record d { zstd_stream = input } in
      let added : rest input ahead ≡ rest d.zstd_stream (chunk ++ ahead) =
        z.rest-write_all chunk d.zstd_stream ahead in
      let waiting : Waiting session d' (rest input ahead) recs tail =
        other_input d input (rest input ahead) recs tail
          (subst (λ x. Waiting session d x recs tail) (sym added) w) in
      process_loop-Done z session fuel (length (rest d.zstd_stream (chunk ++ ahead))) callback d'
        ahead recs tail are waiting (omega (arith, ap length added))
        (omega (arith, ap length added))

  within :
      {callback : RecordCallback} {seen recs : List Bytes} {tail : Bytes} {ahead : List ℕ} {low : ℕ}
      {result : Processed Stream} (high : ℕ)
      → low ≤ high
      → Done z session callback seen recs tail ahead low result
      → Done z session callback seen recs tail ahead high result
  within high h (inl s) = inl s
  within high h (inr s) = inr (record {
    after = s.after;
    left = s.left;
    returned = s.returned;
    are_records = s.are_records;
    waiting = s.waiting;
    idle = s.idle;
    fewer = omega (arith, s.fewer);
    same_end = s.same_end;
    same_answer = s.same_answer;
  })

  -- `Process` on one chunk after the other.
  pub process_all-Done :
      (fuel : ℕ) (callback : RecordCallback) (chunks : List (List ℕ)) (d : BufferDecoder Stream)
      (recs : List Bytes) (tail : Bytes)
      → AreRecords recs tail
      → Idle z d.zstd_stream
      → Waiting session d (rest d.zstd_stream (concat chunks)) recs tail
      → length (rest d.zstd_stream (concat chunks)) < fuel
      → Done z session callback d.seen recs tail []
          (length (rest d.zstd_stream (concat chunks)))
          (process_all z fuel callback chunks d)
  unfolding process_all
  process_all-Done fuel callback [] d recs tail are idle w enough = inr (record {
    after = d;
    left = recs;
    returned = refl;
    are_records = are;
    waiting = w;
    idle = idle;
    same_end = refl;
    same_answer = refl;
    fewer = omega arith;
  })
  process_all-Done fuel callback (chunk ∷ chunks) d recs tail are idle w enough =
      let ahead = concat chunks in
      let step = process z fuel callback chunk d in
      let loop = process_all z fuel callback chunks in
      elim (process-Done fuel callback chunk ahead d recs tail are w enough) [
        | inl h ↦ inl (Stopped-then z session callback d.seen recs step loop h)
        | inr c ↦
            let less : length (rest c.after.zstd_stream ahead) < fuel = omega (arith, c.fewer) in
            let bound = length (rest d.zstd_stream (chunk ++ ahead)) in
            continued_then z session callback d.seen recs tail [] bound step loop c.after c.left
              c.returned c.same_end c.same_answer
              (within bound c.fewer (
                process_all-Done fuel callback chunks c.after c.left tail c.are_records c.idle
                  c.waiting less))
      ]
