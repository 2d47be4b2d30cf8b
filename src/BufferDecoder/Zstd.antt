-- ===== src/BufferDecoder/Zstd.antt =====
-- src/detail/zstd_stream.cpp: `ZstdDecodeStream::ReadSome` over the buffer of compressed bytes, and that it
-- is a stream as `DbnBufferDecoder` needs it. libzstd is a parameter.
use databento_cpp.Base.{
  ℕ, zero, suc, ◌≤◌, ◌<◌, ◌≡◌, refl, sym, ap, ◌∙◌, arith, List, [], ◌++◌, length, take, drop, ◌==◌,
  ltb, if◌then◌else◌, Bool, ◌&&◌, true, Bool-cases, inl, inr, append_assoc, take-append-drop,
  length-take, length-drop,
}
use databento_cpp.Upgrade.{Bytes}
use databento_cpp.Decoder.Fill.{nil_of_length}
use databento_cpp.BufferDecoder.{ZstdStream}

-- What `ZSTD_decompressStream` did: the bytes it put out, how many it took, and how many it would like to
-- be given next, 0 where a frame has ended.
pub record Decompressed (Context : Type 0) : Type 0 where
  pub output : Bytes
  pub taken : ℕ
  pub hint : ℕ
  pub context : Context

-- libzstd on frames without errors. `content c input` is all that the context still puts out when it is
-- given `input`. A call takes some of its input in order and puts out some of the content in order, no
-- more than there is room for. Where a frame has ended, `ZSTD_initDStream` loses nothing, and
-- asks for some bytes.
pub record Libzstd : Type 1 where
  pub Context : Type 0
  pub init : Context → ℕ × Context
  pub decompress : ℕ → List ℕ → Context → Decompressed Context
  pub content : Context → List ℕ → Bytes
  pub ended : Context → Type 0
  pub in_order :
      (room : ℕ) (input ahead : List ℕ) (c : Context)
      → let o = decompress room input c in
        o.output ++ content o.context (drop o.taken input ++ ahead) ≡ content c (input ++ ahead)
  pub bounded :
      (room : ℕ) (input : List ℕ) (c : Context) → length (decompress room input c).output ≤ room
  pub hint-ended :
      (room : ℕ) (input : List ℕ) (c : Context)
      → let o = decompress room input c in o.hint ≡ 0 → ended o.context
  pub init_some : (c : Context) → 0 < (init c).0
  pub content-init :
      (c : Context) (input : List ℕ) → ended c → content (init c).1 input ≡ content c input

module _ (lib : Libzstd) where
  open lib use {Context, init, decompress, content, ended, init_some, content-init, hint-ended}

  -- `z_in` are the bytes of `in_buffer_` that are not taken yet, `compressed` those of the input.
  pub record ZstdDecodeStream : Type 0 where
    pub read_suggestion : ℕ
    pub z_in : List ℕ
    pub context : Context
    pub compressed : List ℕ
    pub at_frame : read_suggestion ≡ 0 → ended context

  -- `if (read_suggestion_ == 0) { read_suggestion_ = ZSTD_initDStream(...); }`
  abbrev pub next_frame : ℕ → Context → ℕ × Context
  next_frame zero c = init c
  next_frame (suc n) c = (suc n, c)

  next_frame-content :
      (n : ℕ) (c : Context) (input : List ℕ)
      → (n ≡ 0 → ended c)
      → content (next_frame n c).1 input ≡ content c input
  next_frame-content zero c input h = content-init c input (h refl)
  next_frame-content (suc n) c input h = refl

  pub next_frame_some : (n : ℕ) (c : Context) → 0 < (next_frame n c).0
  next_frame_some zero c = init_some c
  next_frame_some (suc n) c = omega arith

  abbrev pub suggested : ZstdDecodeStream → ℕ × Context
  suggested s = next_frame s.read_suggestion s.context

  -- `input_->ReadSome(&in_buffer_[unread_input], read_suggestion_, timeout)`
  abbrev pub newly_read : ZstdDecodeStream → List ℕ
  newly_read s = take (suggested s).0 s.compressed

  abbrev pub in_buffer : ZstdDecodeStream → List ℕ
  in_buffer s = s.z_in ++ newly_read s

  -- After the read, and after the call of libzstd.
  abbrev pub after_read : ZstdDecodeStream → ZstdDecodeStream
  after_read s = record {
    read_suggestion = (suggested s).0;
    z_in = in_buffer s;
    context = (suggested s).1;
    compressed = drop (suggested s).0 s.compressed;
    at_frame = λ e. absurd (omega (arith, next_frame_some s.read_suggestion s.context));
  }

  abbrev pub call : ℕ → ZstdDecodeStream → Decompressed Context
  call room s = decompress room (in_buffer s) (suggested s).1

  abbrev pub after_call : ℕ → ZstdDecodeStream → ZstdDecodeStream
  after_call room s = record {
    read_suggestion = (call room s).hint;
    z_in = drop (call room s).taken (in_buffer s);
    context = (call room s).context;
    compressed = drop (suggested s).0 s.compressed;
    at_frame = hint-ended room (in_buffer s) (suggested s).1;
  }

  -- `z_out_buffer.pos == 0 && read_result.read_size > 0`
  abbrev goes_on : ℕ → ZstdDecodeStream → Bool
  goes_on room s = (length (call room s).output == 0) && ltb 0 (length (newly_read s))

  -- The `do` loop of `ReadSome`. Whoever goes on has read a byte of the input at least.
  unfoldable pub read_loop : ℕ → ℕ → ZstdDecodeStream → Bytes × ZstdDecodeStream
  read_loop zero room s = ([], s)
  read_loop (suc fuel) room s =
      let more = read_loop fuel room (after_call room s) in
      if length (in_buffer s) == 0
      then ([], after_read s)
      else if goes_on room s
      then more
      else ((call room s).output, after_call room s)

  unfoldable pub read_some : ℕ → ZstdDecodeStream → Bytes × ZstdDecodeStream
  read_some room s = read_loop (suc (length s.compressed)) room s

  abbrev pub write_all : List ℕ → ZstdDecodeStream → ZstdDecodeStream
  write_all chunk s = record s { compressed = s.compressed ++ chunk }

  abbrev pub rest : ZstdDecodeStream → List ℕ → Bytes
  rest s ahead = content s.context (s.z_in ++ (s.compressed ++ ahead))

  shrinks :
      (fuel room : ℕ) (s : ZstdDecodeStream)
      → goes_on room s ≡ true
      → length s.compressed < suc fuel
      → length (after_call room s).compressed < fuel
  shrinks fuel room s again h =
      ground
        (arith, length-take (suggested s).0 s.compressed, length-drop (suggested s).0 s.compressed)

  -- The loop never runs out of fuel: with other fuel it does the same.
  pub read_loop_enough :
      (fuel fuel' room : ℕ) (s : ZstdDecodeStream)
      → length s.compressed < fuel
      → length s.compressed < fuel'
      → read_loop fuel room s ≡ read_loop fuel' room s
  unfolding read_loop
  read_loop_enough zero fuel' room s h h' = absurd (omega arith)
  read_loop_enough (suc fuel) zero room s h h' = absurd (omega arith)
  read_loop_enough (suc fuel) (suc fuel') room s h h' =
      let last : Bytes × ZstdDecodeStream = ((call room s).output, after_call room s) in
      let none_read : Bytes × ZstdDecodeStream = ([], after_read s) in
      elim (Bool-cases (goes_on room s)) [
        | inl again ↦
            ap
              (λ x.
                if length (in_buffer s) == 0 then none_read else if goes_on room s then x else last)
              (read_loop_enough fuel fuel' room (after_call room s) (shrinks fuel room s again h)
                (shrinks fuel' room s again h'))
        | inr stops ↦ rw stops refl
      ]

  after_read-rest :
      (s : ZstdDecodeStream) (ahead : List ℕ) → rest (after_read s) ahead ≡ rest s ahead
  after_read-rest s ahead =
      let n = (suggested s).0 in
      let all = s.z_in ++ (s.compressed ++ ahead) in
      let same : (s.z_in ++ take n s.compressed) ++ (drop n s.compressed ++ ahead) ≡ all =
        append_assoc s.z_in (take n s.compressed) (drop n s.compressed ++ ahead)
        ∙ ap (λ x. s.z_in ++ x)
            (sym (append_assoc (take n s.compressed) (drop n s.compressed) ahead)
              ∙ ap (λ x. x ++ ahead) (take-append-drop n s.compressed)) in
      ap (content (suggested s).1) same
      ∙ next_frame-content s.read_suggestion s.context all s.at_frame

  after_call-rest :
      (room : ℕ) (s : ZstdDecodeStream) (ahead : List ℕ)
      → (call room s).output ++ rest (after_call room s) ahead ≡ rest s ahead
  after_call-rest room s ahead =
      lib.in_order room (in_buffer s) (drop (suggested s).0 s.compressed ++ ahead) (suggested s).1
      ∙ after_read-rest s ahead

  read_loop_in_order :
      (fuel room : ℕ) (s : ZstdDecodeStream) (ahead : List ℕ)
      → (read_loop fuel room s).0 ++ rest (read_loop fuel room s).1 ahead ≡ rest s ahead
  unfolding read_loop
  read_loop_in_order zero room s ahead = refl
  read_loop_in_order (suc fuel) room s ahead = elim (Bool-cases (length (in_buffer s) == 0)) [
    | inl empty ↦ rw empty (after_read-rest s ahead)
    | inr full ↦ elim (Bool-cases (goes_on room s)) [
      | inl again ↦
          rw (full, again)
            (read_loop_in_order fuel room (after_call room s) ahead
              ∙ ap (λ x. x ++ rest (after_call room s) ahead)
                  (sym (nil_of_length (call room s).output (ground arith)))
              ∙ after_call-rest room s ahead)
      | inr last ↦ rw (full, last) (after_call-rest room s ahead)
    ]
  ]

  read_loop_bounded :
      (fuel room : ℕ) (s : ZstdDecodeStream) → length (read_loop fuel room s).0 ≤ room
  unfolding read_loop
  read_loop_bounded zero room s = omega arith
  read_loop_bounded (suc fuel) room s = elim (Bool-cases (length (in_buffer s) == 0)) [
    | inl empty ↦ rw empty (omega arith)
    | inr full ↦ elim (Bool-cases (goes_on room s)) [
      | inl again ↦ rw (full, again) (read_loop_bounded fuel room (after_call room s))
      | inr last ↦ rw (full, last) (lib.bounded room (in_buffer s) (suggested s).1)
    ]
  ]

  -- `ReadSome` on frames without errors, whatever the room and whatever is to be written yet: what it
  -- delivers, and what the stream has still to deliver behind it, are what the stream had to deliver.
  pub read_some_in_order :
      (n : ℕ) (s : ZstdDecodeStream) (ahead : List ℕ)
      → (read_some n s).0 ++ rest (read_some n s).1 ahead ≡ rest s ahead
  unfolding read_some
  read_some_in_order n s ahead = read_loop_in_order (suc (length s.compressed)) n s ahead

  pub read_some_bounded : (n : ℕ) (s : ZstdDecodeStream) → length (read_some n s).0 ≤ n
  unfolding read_some
  read_some_bounded n s = read_loop_bounded (suc (length s.compressed)) n s

  pub rest-write_all :
      (chunk : List ℕ) (s : ZstdDecodeStream) (ahead : List ℕ)
      → rest (write_all chunk s) ahead ≡ rest s (chunk ++ ahead)
  rest-write_all chunk s ahead =
      ap (λ x. content s.context (s.z_in ++ x)) (append_assoc s.compressed chunk ahead)

  -- `ZstdDecodeStream` is a stream as `DbnBufferDecoder` needs it.
  abbrev pub zstd_decode_stream : ZstdStream
  zstd_decode_stream = record {
    Stream = ZstdDecodeStream;
    read_some = read_some;
    write_all = write_all;
    rest = rest;
    read_some_in_order = read_some_in_order;
    read_some_bounded = read_some_bounded;
    rest-write_all = rest-write_all;
  }
