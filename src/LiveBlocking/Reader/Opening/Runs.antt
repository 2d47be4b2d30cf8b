-- ===== src/LiveBlocking/Reader/Opening/Runs.antt =====
-- Runs of `Start` on small metadata and two records.
use databento_cpp.Base.{
  ℕ, ◌≤◌, ◌≡◌, refl, arith, inl, some, false, List, [], ◌∷◌, ◌++◌, length, take, drop, replicate,
  length-replicate, le,
}
use databento_cpp.Base.Results.{ok, overrun}
use databento_cpp.Metadata.{Text, upgrade, upgrade_to_v3}
use databento_cpp.Metadata.Runs.{small_metadata, small_metadata-IsEncodable, small_metadata-Fits}
use databento_cpp.Metadata.RoundTrip.{decode-encode_metadata}
use databento_cpp.Metadata.Encode.{calc_length, needed_len}
use databento_cpp.Metadata.Format.{fields_bytes}
use databento_cpp.Store.OpenRuns.{frame, behind, magic, length-frame, announced_frame}
use databento_cpp.LiveBlocking.Reader.{Arrival, Reader, bytes, timeout, closed}
use databento_cpp.LiveBlocking.Reader.Opening.{start, start_request}
use databento_cpp.LiveBlocking.Reader.Opening.Reads.{IsAuthenticated, Answers}
use databento_cpp.LiveBlocking.Reader.Opening.Begun.{Begun, start-Begun, start-overrun}

-- The prelude, its last byte after a timeout, with the frame and the records.
abbrev answer : Text → List Arrival
answer request =
    bytes (magic ++ take 3 (le 4 (length frame))) 10
    ∷ timeout 20
    ∷ bytes (drop 3 (le 4 (length frame)) ++ (frame ++ behind)) 30
    ∷ closed
    ∷ []

-- A client whose buffer has `n` bytes behind the answer to its authentication.
abbrev authenticated : ℕ → Reader
authenticated n = record {
  version = 2;
  upgrade_policy = upgrade_to_v3;
  send_ts_out = false;
  heartbeat_timeout = 35;
  last_read_time = 1;
  buffer = record { mem = replicate 9 7 ++ replicate n 0; read_pos = 9; write_pos = 9 };
  connection = [];
}

authenticated-IsAuthenticated : (n : ℕ) → 8 ≤ n → IsAuthenticated (authenticated n)
authenticated-IsAuthenticated n h = record {
  valid = record { ordered = omega arith; inside = omega arith };
  none_left = refl;
  room = omega (arith, length-replicate n (let z : ℕ = 0 in z));
}

answer-Answers : Answers (answer start_request) 3 frame behind small_metadata
unfolding le fields_bytes calc_length needed_len
answer-Answers = record {
  prelude = magic ++ le 4 (length frame);
  prelude_len = refl;
  some_bytes = (omega arith, (tt, (omega arith, (tt, tt))));
  arrives = refl;
  announced = announced_frame;
  fields =
      (decode-encode_metadata small_metadata [] small_metadata-IsEncodable small_metadata-Fits).2;
}

start-Begun_example :
    (r' : Reader) × (start answer 40 (authenticated 1100)
      ≡ some (ok (upgrade upgrade_to_v3 small_metadata, r')))
    × Begun 40 (authenticated 1100) behind small_metadata r'
start-Begun_example =
    start-Begun answer 40 (authenticated 1100) 3 frame behind small_metadata
      (authenticated-IsAuthenticated 1100 (omega arith))
      (omega (arith, length-replicate 1100 (let z : ℕ = 0 in z))) answer-Answers
      (inl (omega (arith, length-frame, length-replicate 1100 (let z : ℕ = 0 in z))))

start-overrun_example : start answer 40 (authenticated 170) ≡ some overrun
start-overrun_example =
    start-overrun answer 40 (authenticated 170) 3 frame behind small_metadata
      (authenticated-IsAuthenticated 170 (omega arith)) answer-Answers
      (omega (arith, length-frame, length-replicate 170 (let z : ℕ = 0 in z)))
      (omega (arith, length-frame, length-replicate 170 (let z : ℕ = 0 in z)))
