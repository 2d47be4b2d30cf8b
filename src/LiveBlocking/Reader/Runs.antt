-- ===== src/LiveBlocking/Reader/Runs.antt =====
-- A run of `NextRecord(timeout)`.
use databento_cpp.Base.{ℕ, arith, false, [], ◌∷◌, replicate, length-replicate}
use databento_cpp.Metadata.{as_is}
use databento_cpp.LiveBlocking.Reader.{Reader, bytes, timeout, closed, next_record_within}
use databento_cpp.LiveBlocking.Reader.Fill.{IsReady}
use databento_cpp.LiveBlocking.Reader.Next.{Ends, next_record_within-Ends}

-- Half of a record of 16 bytes is in the buffer, and the other half arrives in two parts with a timeout
-- between them.
abbrev half_read : Reader
half_read = record {
  version = 3;
  upgrade_policy = as_is;
  send_ts_out = false;
  heartbeat_timeout = 35;
  last_read_time = 100;
  buffer = record { mem = 4 ∷ replicate 1100 0; read_pos = 0; write_pos = 8 };
  connection = bytes (replicate 4 1) 110 ∷ timeout 120 ∷ bytes (replicate 4 2) 130 ∷ closed ∷ [];
}

half_read-IsReady : IsReady half_read
half_read-IsReady = record {
  valid = record {
    ordered = omega arith;
    inside = omega (arith, length-replicate 1100 (let z : ℕ = 0 in z));
  };
  large = omega (arith, length-replicate 1100 (let z : ℕ = 0 in z));
  some_bytes = (omega arith, (tt, (omega arith, (tt, tt))));
}

next_record_within-Ends_example : Ends half_read (next_record_within 1021 half_read)
next_record_within-Ends_example =
    next_record_within-Ends 1021 half_read half_read-IsReady (omega arith) (omega arith)
