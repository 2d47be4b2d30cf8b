-- ===== src/LiveBlocking/Runs.antt =====
-- Runs of `Subscribe` and `Resubscribe`.
use databento_cpp.Base.{◌≡◌, ◌⊎◌, true, List, [], ◌∷◌, codes, replicate}
use databento_cpp.Base.Results.{invalid_argument}
use databento_cpp.Metadata.{Text}
use databento_cpp.Enums.Schema.{trades}
use databento_cpp.Enums.SType.{raw_symbol}
use databento_cpp.LiveBlocking.{LiveBlocking, Call, from, with_snapshot, subscribe, threw}
use databento_cpp.LiveBlocking.Chunks.{Writes, subscribe_lem}

-- Two requests are needed for these.
abbrev many_symbols : List Text
many_symbols = replicate 501 (codes "ESH1")

subscribe_lem_example :
    ((many_symbols ≡ [])
      × (subscribe (codes "schema=trades") many_symbols true ≡ threw invalid_argument))
    ⊎ Writes
        (codes "schema=trades")
        true
        many_symbols
        (subscribe (codes "schema=trades") many_symbols true)
subscribe_lem_example = subscribe_lem (codes "schema=trades") true many_symbols

-- A call that starts at a time, one that throws, and one with a snapshot.
abbrev three_calls : List Call
three_calls =
    from 1_609_160_400_000_000_000 (codes "ESH1" ∷ []) trades raw_symbol
    ∷ from 0 [] trades raw_symbol
    ∷ with_snapshot (codes "ESH1" ∷ codes "NQH1" ∷ []) trades raw_symbol
    ∷ []
