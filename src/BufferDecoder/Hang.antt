-- ===== src/BufferDecoder/Hang.antt =====
-- The inner loop of `DbnBufferDecoder::Process` on a record whose header says that it has no words.
use databento_cpp.Base.{
  ℕ, zero, suc, ◌+◌, ◌≡◌, ap, ◌<◌, refl, sym, ◌∙◌, arith, false, none, List, [], ◌∷◌,
}
use mathlib.Core.Path.{subst}
use databento_cpp.Buffer
use databento_cpp.Buffer.{Buffer, read_capacity}
use databento_cpp.Upgrade.{Bytes, record_size}
use databento_cpp.Decoder.{at_read_pos}
use databento_cpp.Store.{continue, RecordCallback}
use databento_cpp.BufferDecoder.Whole.{behind_it, records_loop-whole}
use databento_cpp.BufferDecoder.{BufferDecoder, records_loop}

consume-zero : (b : Buffer) → Buffer.consume 0 b ≡ b
unfolding Buffer.consume
consume-zero b =
    let same : b.read_pos + 0 ≡ b.read_pos = omega arith in
    ap (λ p. record { mem = b.mem; read_pos = p; write_pos = b.write_pos }) same

-- Where the next record has length 0, no upgrade is needed and the callback always says to go on, the
-- loop consumes nothing and calls back with the same record again: it does not end on any fuel.
pub records_loop-zero_length :
    {Stream : Type 0} (fuel : ℕ) (callback : RecordCallback) (d : BufferDecoder Stream)
    → d.needs_upgrade ≡ false
    → 0 < read_capacity d.dbn_buffer
    → record_size (at_read_pos d.dbn_buffer) ≡ 0
    → ((seen : List Bytes) → callback seen ≡ continue)
    → records_loop fuel callback d ≡ none
unfolding records_loop Buffer.consume
records_loop-zero_length zero callback d plain pos size goes_on = refl
records_loop-zero_length (suc fuel) callback d plain pos size goes_on =
    let same : (behind_it d []).dbn_buffer ≡ d.dbn_buffer = rw size (consume-zero d.dbn_buffer) in
    let again =
      records_loop-zero_length fuel callback (behind_it d []) plain
        (subst (λ b. 0 < read_capacity b) (sym same) pos)
        (subst (λ b. record_size (at_read_pos b) ≡ 0) (sym same) size) goes_on in
    records_loop-whole fuel callback d [] plain pos (omega arith) (rw size refl)
    ∙ rw (goes_on ([] ∷ d.seen)) again
