-- ===== src/LiveBlocking/Chunks.antt =====
-- `LiveBlocking::Subscribe` writes its symbols in requests of at most 500.
use databento_cpp.Base.{
  ℕ, zero, suc, min, ◌≤◌, ◌<◌, ◌≡◌, refl, sym, arith, Bool, true, false, some, List, [], ◌∷◌, ◌++◌,
  ◌⊎◌, inl, inr, leb, length, take, drop, Bool-cases, length-take, length-drop, take-append-drop,
  take-all, drop-all,
}
use mathlib.Core.Path.{subst}
use databento_cpp.Base.Results.{invalid_argument}
use databento_cpp.Metadata.{Text}
use databento_cpp.LiveBlocking.Texts.{request, message-request}
use databento_cpp.LiveBlocking.{
  accumulate, join_symbol_strings, Written, wrote, threw, write_then, send_chunks, subscribe,
}

-- The requests for some symbols: each but the last has 500 symbols, the last has at least one and at most
-- 500, and only the last says so. `text` is the request for some symbols, the last one or not.
pub data Requests (text : Bool → List Text → Text) : List Text → List Text → Type 0 where
  last :
      (chunk : List Text)
      → 0 < length chunk
      → length chunk ≤ 500
      → Requests text chunk (text true chunk ∷ [])
  more :
      {rest messages : List Text} (chunk : List Text)
      → length chunk ≡ 500
      → Requests text rest messages
      → Requests text (chunk ++ rest) (text false chunk ∷ messages)

pub Requests-same :
    {text text' : Bool → List Text → Text} {symbols messages : List Text}
    → ((is_last : Bool) (chunk : List Text) → text is_last chunk ≡ text' is_last chunk)
    → Requests text symbols messages
    → Requests text' symbols messages
Requests-same {text} {text'} same (last chunk pos small) =
    subst (λ t. Requests text' chunk (t ∷ [])) (sym (same true chunk)) (last chunk pos small)
Requests-same {text} {text'} same (more {rest} {messages} chunk full later) =
    subst (λ t. Requests text' (chunk ++ rest) (t ∷ messages)) (sym (same false chunk))
      (more chunk full (Requests-same same later))

module _ (sub_msg : Text) (use_snapshot : Bool) where
  -- The fields of a request, behind `sub_msg`.
  abbrev pub says : Bool → List Text → Text
  says = request (sub_msg ∷ []) use_snapshot

  -- What the loop writes.
  pub record Writes (symbols : List Text) (result : Written) : Type 0 where
    pub messages : List Text
    pub written : result ≡ wrote messages
    pub requests : Requests says symbols messages

  join_some :
      (symbols : List Text)
      → 0 < length symbols
      → join_symbol_strings symbols ≡ some (accumulate [] symbols)
  unfolding join_symbol_strings
  join_some [] h = absurd (omega arith)
  join_some (sym ∷ symbols) h = refl

  -- A step of the loop.
  abbrev chunk_step : ℕ → List Text → Written
  chunk_step fuel all =
      let n = length all in
      write_then sub_msg use_snapshot (leb n 500) (join_symbol_strings (take (min 500 n) all))
        (send_chunks fuel sub_msg use_snapshot (drop (min 500 n) all))

  last_step :
      (fuel : ℕ) (all : List Text)
      → 0 < length all
      → leb (length all) 500 ≡ true
      → Writes all (chunk_step fuel all)
  unfolding send_chunks
  last_step fuel all pos short =
      let size : min 500 (length all) ≡ length all = ground arith in
      let whole = take-all (length all) all (omega arith) in
      let same = message-request sub_msg use_snapshot true all in
      let nothing = drop-all (length all) all (omega arith) in
      record {
        messages = says true all ∷ [];
        written = rw (short, size, whole, nothing, join_some all pos, same) refl;
        requests = last all pos (ground arith);
      }

  more_step :
      (fuel : ℕ) (all : List Text)
      → leb (length all) 500 ≡ false
      → Writes (drop 500 all) (send_chunks fuel sub_msg use_snapshot (drop 500 all))
      → Writes all (chunk_step fuel all)
  more_step fuel all long w =
      let size : min 500 (length all) ≡ 500 = ground arith in
      let full : length (take 500 all) ≡ 500 = omega (arith, length-take 500 all, size) in
      let joined = join_some (take 500 all) (omega arith) in
      let same = message-request sub_msg use_snapshot false (take 500 all) in
      let all_messages = says false (take 500 all) ∷ w.messages in
      record {
        messages = all_messages;
        written = rw (long, size, joined, w.written, same) refl;
        requests =
            subst (λ x. Requests says x all_messages) (take-append-drop 500 all)
              (more (take 500 all) full w.requests);
      }

  send_chunks-Writes :
      (fuel : ℕ) (symbols : List Text)
      → 0 < length symbols
      → length symbols ≤ fuel
      → Writes symbols (send_chunks fuel sub_msg use_snapshot symbols)
  unfolding send_chunks
  send_chunks-Writes fuel [] pos enough = absurd (omega arith)
  send_chunks-Writes zero (s ∷ symbols) pos enough = absurd (omega arith)
  send_chunks-Writes (suc fuel) (s ∷ symbols) pos enough =
      let all = s ∷ symbols in
      let left = length-drop 500 all in
      elim (Bool-cases (leb (length all) 500)) [
        | inl short ↦ last_step fuel all pos short
        | inr long ↦
            let many : 500 < length all = ground arith in
            more_step fuel all long
              (send_chunks-Writes fuel (drop 500 all) (omega arith) (omega arith))
      ]

  pub subscribe-Writes :
      (symbols : List Text)
      → 0 < length symbols
      → Writes symbols (subscribe sub_msg symbols use_snapshot)
  unfolding subscribe
  subscribe-Writes [] pos = absurd (omega arith)
  subscribe-Writes (s ∷ symbols) pos =
      send_chunks-Writes (length (s ∷ symbols)) (s ∷ symbols) (omega arith) (omega arith)

  -- `Subscribe` for one symbol or more writes requests for all of the symbols in order, 500 in each but
  -- the last; for no symbols it throws. A request has the fields of `sub_msg`, the symbols with commas
  -- between them but without empty ones in front, whether a snapshot is asked for, and whether it is the
  -- last, with bars between them and a line's end behind.
  pub subscribe_lem :
      (symbols : List Text)
      → ((symbols ≡ []) × (subscribe sub_msg symbols use_snapshot ≡ threw invalid_argument))
        ⊎ Writes symbols (subscribe sub_msg symbols use_snapshot)
  unfolding subscribe
  subscribe_lem [] = inl (refl, refl)
  subscribe_lem (s ∷ symbols) = inr (subscribe-Writes (s ∷ symbols) (omega arith))
