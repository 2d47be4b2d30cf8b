-- ===== src/LiveBlocking/Resubscribe.antt =====
-- `LiveBlocking::Resubscribe` after `Reconnect` asks for each subscription again, under its own ID.
use databento_cpp.Base.{ℕ, ◌^◌, ◌≤◌, ◌<◌, ◌≡◌, Option, some, List, [], ◌∷◌, ◌++◌, length, All}
use databento_cpp.Metadata.{Text}
use databento_cpp.Enums.Schema.{Schema}
use databento_cpp.Enums.SType.{SType}
use databento_cpp.Base.Results.{Error}
use databento_cpp.LiveBlocking.{LiveSubscription, LiveBlocking, is_snapshot, Called, restart}
use databento_cpp.LiveBlocking.Chunks.{Requests}
use databento_cpp.LiveBlocking.Texts.{request, subscription_fields, decimal_value}

-- IDs never fall, from one bound to another.
abbrev pub Ascending : ℕ → List LiveSubscription → ℕ → Type 0
Ascending lo [] hi = lo ≤ hi
Ascending lo (sub ∷ subs) hi = (lo ≤ sub.id) × Ascending sub.id subs hi

-- The subscriptions of a client have symbols, and IDs in order up to the counter.
pub record IsConsistent (c : LiveBlocking) : Type 0 where
  pub ordered : Ascending 0 c.subscriptions c.sub_counter
  pub some_symbols : All (λ sub. 0 < length sub.symbols) c.subscriptions
  pub small : c.sub_counter < 2 ^ 32

-- A call returns or throws, and the client is consistent afterwards.
abbrev Returns : Called → Type 0
Returns result =
    (thrown : Option Error) × (c : LiveBlocking) × (result ≡ some (thrown, c)) × IsConsistent c

-- The requests that ask for subscriptions again, each with its schema and type of symbols, under its own
-- ID in decimal, and without its start time.
pub data Again : List LiveSubscription → List Text → Type 0 where
  done : Again [] []
  next :
      {subs : List LiveSubscription} {later : List Text} (sub : LiveSubscription) (id : Text)
      (messages : List Text)
      → decimal_value id ≡ sub.id
      → Requests
          (request (subscription_fields sub.schema sub.stype_in id) (is_snapshot sub.start))
          sub.symbols
          messages
      → Again subs later
      → Again (sub ∷ subs) (messages ++ later)

abbrev pub restarted : LiveSubscription → LiveSubscription
restarted sub = record sub { start = restart sub.start }

-- The ID of the last subscription.
abbrev last_id : ℕ → List LiveSubscription → ℕ
last_id counter [] = counter
last_id counter (sub ∷ subs) = last_id sub.id subs
