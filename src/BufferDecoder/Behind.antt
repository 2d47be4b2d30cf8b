-- ===== src/BufferDecoder/Behind.antt =====
-- What `DbnBufferDecoder` owes behind the prelude and behind the metadata.
use databento_cpp.Base.{
  ℕ, ◌≤◌, ◌≡◌, refl, sym, ap, ◌∙◌, arith, false, List, [], ◌∷◌, ◌++◌, length, take, drop, ltb,
  take-append, drop-append, take-append_le, drop-append_le, take-append-drop,
}
use mathlib.Core.Path.{subst}
use databento_cpp.Buffer
use databento_cpp.Buffer.{Buffer, capacity, read_capacity, unread}
use databento_cpp.Buffer.Bounds.{
  consume-IsValid, shift-IsValid, reserve-IsValid, capacity-shift, capacity-reserve_eq,
}
use databento_cpp.Buffer.Contents.{length-unread, unread-shift, unread-reserve}
use databento_cpp.Upgrade.{Bytes}
use databento_cpp.Metadata.Decode.{decode_metadata_version_and_size, has_prefix}
use databento_cpp.Decoder.Records.{unread-consume}
use databento_cpp.Store.Replay.{concat_records}
use databento_cpp.BufferDecoder.{
  BufferDecoder, init, metadata, records, with_metadata, with_prelude,
}
use databento_cpp.BufferDecoder.Session.{Session, Owes, Good}
use databento_cpp.BufferDecoder.Steps.{AtRecords}

-- Where the first bytes to come are known and are in the buffer.
pub record Split (u future front rest : Bytes) : Type 0 where
  pub split : u ≡ front ++ drop (length front) u
  pub behind : drop (length front) u ++ future ≡ rest

pub split :
    (u future front rest : Bytes)
    → u ++ future ≡ front ++ rest
    → length front ≤ length u
    → Split u future front rest
split u future front rest same fits =
    let n = length front in
    let first : take n u ≡ front =
      sym (take-append_le n u future fits) ∙ ap (take n) same ∙ take-append n front rest refl in
    record {
      split = sym (take-append-drop n u) ∙ ap (λ x. x ++ drop n u) first;
      behind =
          sym (drop-append_le n u future fits) ∙ ap (drop n) same ∙ drop-append n front rest refl;
    }

-- The prelude is read from the first eight bytes.
pub version_and_size-append :
    (prelude behind : Bytes)
    → length prelude ≡ 8
    → decode_metadata_version_and_size (prelude ++ behind)
      ≡ decode_metadata_version_and_size prelude
unfolding decode_metadata_version_and_size has_prefix
version_and_size-append (a ∷ b ∷ c ∷ d ∷ e ∷ f ∷ g ∷ h ∷ []) behind eight =
    let long : ltb (length (a ∷ b ∷ c ∷ d ∷ e ∷ f ∷ g ∷ h ∷ behind)) 8 ≡ false = ground arith in
    rw long refl
version_and_size-append _ behind eight = absurd (omega arith)

capacity-consume : (n : ℕ) (b : Buffer) → capacity (Buffer.consume n b) ≡ capacity b
unfolding Buffer.consume
capacity-consume n b = refl

module _ {Stream : Type 0} (session : Session) where
  -- Behind the metadata.
  pub with_metadata-AtRecords :
      (d : BufferDecoder Stream) (future : Bytes) (recs : List Bytes) (tail : Bytes)
      → Good session d future recs tail
      → Owes session metadata d (unread d.dbn_buffer ++ future) recs tail
      → length session.frame ≤ length (unread d.dbn_buffer)
      → AtRecords session (with_metadata session.decoded d) future recs tail
  unfolding with_metadata
  with_metadata-AtRecords d future recs tail g (same, calls, version, needed, plain, room) fits =
      let b = d.dbn_buffer in
      let len = length-unread g.valid in
      let enough : d.bytes_needed ≤ read_capacity b = omega (arith, needed) in
      let v = consume-IsValid d.bytes_needed g.valid enough in
      let u = unread b in
      let s = split u future session.frame (concat_records recs tail) same fits in
      record {
        valid = shift-IsValid v;
        large = omega (
          arith,
          g.large,
          capacity-shift (Buffer.consume d.bytes_needed b),
          capacity-consume d.bytes_needed b,
        );
        policy = g.policy;
        callback = g.callback;
        at = refl;
        same =
            ap (λ x. x ++ future)
              (unread-shift v ∙ unread-consume b d.bytes_needed enough ∙ ap (λ n. drop n u) needed)
            ∙ s.behind;
        calls = rw (calls, g.policy, g.callback) refl;
        plain = plain;
      }

  -- Behind the prelude.
  pub with_prelude-Good :
      (d : BufferDecoder Stream) (future : Bytes) (recs : List Bytes) (tail : Bytes)
      → Good session d future recs tail
      → Owes session init d (unread d.dbn_buffer ++ future) recs tail
      → 8 ≤ length (unread d.dbn_buffer)
      → Good session (with_prelude (session.version, length session.frame) d) future recs tail
  unfolding with_prelude
  with_prelude-Good d future recs tail g (same, calls) fits =
      let b = d.dbn_buffer in
      let u = unread b in
      let size = length session.frame in
      let len = length-unread g.valid in
      let enough : 8 ≤ read_capacity b = omega arith in
      let v = consume-IsValid 8 g.valid enough in
      let eight = session.announces.eight in
      let s =
        split u future session.prelude (session.frame ++ concat_records recs tail) same
          (omega arith) in
      let grown = capacity-reserve_eq size (Buffer.consume 8 b) in
      let kept = capacity-consume 8 b in
      record {
        valid = reserve-IsValid size v;
        large = omega (arith, g.large);
        policy = g.policy;
        callback = g.callback;
        owes = (
          ap (λ x. x ++ future)
                (unread-reserve size v ∙ unread-consume b 8 enough ∙ ap (λ n. drop n u) (sym eight))
              ∙ s.behind,
          calls,
          refl,
          refl,
          rw g.policy session.plain,
          omega arith,
        );
      }

  pub Good-AtRecords :
      (d : BufferDecoder Stream) (future : Bytes) (recs : List Bytes) (tail : Bytes)
      → Good session d future recs tail
      → d.state ≡ records
      → AtRecords session d future recs tail
  Good-AtRecords d future recs tail g at =
      let u = unread d.dbn_buffer in
      let (same, calls, plain) = subst (λ s. Owes session s d (u ++ future) recs tail) at g.owes in
      record {
        valid = g.valid;
        large = g.large;
        policy = g.policy;
        callback = g.callback;
        at = at;
        same = same;
        calls = calls;
        plain = plain;
      }
