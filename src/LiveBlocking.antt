-- ===== src/LiveBlocking.antt =====
-- src/live_blocking.cpp: the requests of `LiveBlocking`, which subscribes to symbols of a live session,
-- with `JoinSymbolStrings` of src/symbology.cpp and the subscriptions of
-- include/databento/live_subscription.hpp. A request that is written is a text; `sent` holds all of them,
-- the first one first.
pub mod Texts
pub mod Chunks
pub mod Resubscribe
pub mod Reader
mod Runs
use databento_cpp.Base.{
  ℕ, zero, suc, ◌+◌, ◌-◌, ◌*◌, ◌/◌, ◌%◌, ◌^◌, min, max, ◌≡◌, Bool, true, false, Option, none, some,
  List, [], ◌∷◌, ◌++◌, ltb, leb, ◌==◌, if◌then◌else◌, length, take, drop, codes,
}
use databento_cpp.Base.Results.{Error, invalid_argument}
use databento_cpp.Metadata.{Text}
use databento_cpp.SymbolMap.{is_empty}
use databento_cpp.Enums.Schema
use databento_cpp.Enums.Schema.{Schema}
use databento_cpp.Enums.SType
use databento_cpp.Enums.SType.{SType}

-- `std::to_string` and `operator<<` of an integer of at most 64 bits, which has at most twenty digits.
unfoldable pub digits : ℕ → ℕ → Text → Text
digits zero n behind = behind
digits (suc fuel) n behind =
    let shown = (48 + n % 10) ∷ behind in
    let longer = digits fuel (n / 10) shown in if n / 10 == 0 then shown else longer

unfoldable pub to_decimal : ℕ → Text
unfolding digits
to_decimal n = digits 20 n []

-- `operator<<` of a `bool`.
abbrev pub bool_text : Bool → Text
bool_text true = codes "1"
bool_text false = codes "0"

-- The step of `std::accumulate` in `JoinSymbolStrings`.
abbrev join_step : Text → Text → Text
join_step acc sym = if is_empty acc then sym else acc ++ (b',' ∷ sym)

unfoldable pub accumulate : Text → List Text → Text
accumulate acc [] = acc
accumulate acc (sym ∷ symbols) = accumulate (join_step acc sym) symbols

-- `JoinSymbolStrings`, and `none` for its `InvalidArgumentError`.
unfoldable pub join_symbol_strings : List Text → Option Text
join_symbol_strings [] = none
join_symbol_strings (sym ∷ symbols) = some (accumulate [] (sym ∷ symbols))

abbrev pub symbol_max_chunk_size : ℕ
symbol_max_chunk_size = 500

-- The text of one request.
abbrev pub message : Text → Bool → Bool → Text → Text
message sub_msg use_snapshot is_last joined =
    sub_msg
    ++ (codes "|symbols="
        ++ (joined
            ++ (codes "|snapshot="
                ++ (bool_text use_snapshot
                    ++ (codes "|is_last=" ++ (bool_text is_last ++ (b'\n' ∷ [])))))))

-- The requests that a call writes, the exception that it throws, or a loop that ran out of fuel.
pub data Written : Type 0 where
  wrote : List Text → Written
  threw : Error → Written
  out_of_fuel : Written

-- `WriteAll`, and what is written afterwards.
abbrev pub write_first : Text → Written → Written
write_first text (wrote later) = wrote (text ∷ later)
write_first text (threw e) = threw e
write_first text out_of_fuel = out_of_fuel

abbrev pub write_then : Text → Bool → Bool → Option Text → Written → Written
write_then sub_msg use_snapshot is_last none later = threw invalid_argument
write_then sub_msg use_snapshot is_last (some joined) later =
    write_first (message sub_msg use_snapshot is_last joined) later

-- The loop of `Subscribe`.
unfoldable pub send_chunks : ℕ → Text → Bool → List Text → Written
send_chunks fuel sub_msg use_snapshot [] = wrote []
send_chunks zero sub_msg use_snapshot (sym ∷ symbols) = out_of_fuel
send_chunks (suc fuel) sub_msg use_snapshot (sym ∷ symbols) =
    let from_end = length (sym ∷ symbols) in
    let chunk_size = min symbol_max_chunk_size from_end in
    let later = send_chunks fuel sub_msg use_snapshot (drop chunk_size (sym ∷ symbols)) in
    write_then sub_msg use_snapshot (leb from_end symbol_max_chunk_size)
      (join_symbol_strings (take chunk_size (sym ∷ symbols))) later

-- `Subscribe(sub_msg, symbols, use_snapshot)`. Each request takes a symbol at least.
unfoldable pub subscribe : Text → List Text → Bool → Written
subscribe sub_msg [] use_snapshot = threw invalid_argument
subscribe sub_msg (sym ∷ symbols) use_snapshot =
    send_chunks (length (sym ∷ symbols)) sub_msg use_snapshot (sym ∷ symbols)

-- `LiveSubscription::Start`
pub data Start : Type 0 where
  snapshot no_start : Start
  at_time : ℕ → Start
  at_text : Text → Start

pub record LiveSubscription : Type 0 where
  pub symbols : List Text
  pub schema : Schema
  pub stype_in : SType
  pub start : Start
  pub id : ℕ

pub record LiveBlocking : Type 0 where
  pub sub_counter : ℕ
  pub subscriptions : List LiveSubscription
  pub sent : List Text

unfoldable pub new_client : LiveBlocking
new_client = record { sub_counter = 0; subscriptions = []; sent = [] }

-- `IncrementSubCounter`
unfoldable pub increment_sub_counter : ℕ → ℕ
increment_sub_counter counter = if counter == 2 ^ 32 - 1 then counter else counter + 1

-- `sub_msg`
abbrev pub start_text : Start → ℕ → Text
start_text snapshot id = codes "|id=" ++ to_decimal id
start_text no_start id = codes "|id=" ++ to_decimal id
start_text (at_time time) id =
    codes "|start=" ++ (to_decimal time ++ (codes "|id=" ++ to_decimal id))
start_text (at_text text) id = codes "|id=" ++ (to_decimal id ++ (codes "|start=" ++ text))

abbrev pub sub_msg : Schema → SType → Start → ℕ → Text
sub_msg schema stype_in start id =
    codes "schema="
    ++ (codes (Schema.to_string schema)
        ++ (codes "|stype_in=" ++ (codes (SType.to_string stype_in) ++ start_text start id)))

abbrev pub is_snapshot : Start → Bool
is_snapshot snapshot = true
is_snapshot _ = false

-- The exception that a call threw, if it threw one, and the client; `none` where a loop ran out of fuel.
abbrev pub Called : Type 0
Called = Option (Option Error × LiveBlocking)

-- What is added to the client once the requests are written.
abbrev pub remember : LiveSubscription → LiveBlocking → Written → Called
remember sub c out_of_fuel = none
remember sub c (threw e) = some (some e, c)
remember sub c (wrote messages) =
    some
      (none, record c { sent = c.sent ++ messages; subscriptions = c.subscriptions ++ (sub ∷ []) })

unfoldable pub subscribe_with : Start → List Text → Schema → SType → LiveBlocking → Called
subscribe_with start symbols schema stype_in c =
    let id = increment_sub_counter c.sub_counter in
    let sub : LiveSubscription = record {
      symbols = symbols;
      schema = schema;
      stype_in = stype_in;
      start = start;
      id = id;
    } in
    remember sub (record c { sub_counter = id })
      (subscribe (sub_msg schema stype_in start id) symbols (is_snapshot start))

-- The overloads of `Subscribe`, and `SubscribeWithSnapshot`.
unfoldable pub subscribe_from : ℕ → List Text → Schema → SType → LiveBlocking → Called
subscribe_from time = subscribe_with (at_time time)

unfoldable pub subscribe_from_text : Text → List Text → Schema → SType → LiveBlocking → Called
subscribe_from_text text = subscribe_with (if is_empty text then no_start else at_text text)

unfoldable pub subscribe_with_snapshot : List Text → Schema → SType → LiveBlocking → Called
subscribe_with_snapshot = subscribe_with snapshot

-- A call of one of them.
pub data Call : Type 0 where
  from : ℕ → List Text → Schema → SType → Call
  from_text : Text → List Text → Schema → SType → Call
  with_snapshot : List Text → Schema → SType → Call

unfoldable pub call : Call → LiveBlocking → Called
call (from time symbols schema stype_in) = subscribe_from time symbols schema stype_in
call (from_text text symbols schema stype_in) = subscribe_from_text text symbols schema stype_in
call (with_snapshot symbols schema stype_in) = subscribe_with_snapshot symbols schema stype_in

abbrev pub then_calls : Called → (LiveBlocking → Option LiveBlocking) → Option LiveBlocking
then_calls none later = none
then_calls (some (thrown, c)) later = later c

-- One call after the other, whether they throw or not.
unfoldable pub run : List Call → LiveBlocking → Option LiveBlocking
run [] c = some c
run (one ∷ calls) c = then_calls (call one c) (run calls)

-- `Reconnect`, for what the subscriptions see of it.
unfoldable pub reconnect : LiveBlocking → LiveBlocking
reconnect c = record c { sub_counter = 0 }

abbrev pub restart : Start → Start
restart (at_time time) = no_start
restart (at_text text) = no_start
restart start = start

-- The loop of `Resubscribe`, over the subscriptions that are left; `done` are those that it has seen.
abbrev pub and_later : Written → LiveBlocking → (List Text → Called) → Called
and_later out_of_fuel c later = none
and_later (threw e) c later = some (some e, c)
and_later (wrote messages) c later = later messages

unfoldable pub resubscribe_loop :
    List LiveSubscription → List LiveSubscription → ℕ → List Text → Called
resubscribe_loop done [] counter sent =
    some (none, record { sub_counter = counter; subscriptions = done; sent = sent })
resubscribe_loop done (sub ∷ subs) counter sent =
    let sub' = record sub { start = restart sub.start } in
    let counter' = max counter sub.id in
    let stopped : LiveBlocking = record {
      sub_counter = counter';
      subscriptions = done ++ (sub' ∷ subs);
      sent = sent;
    } in
    and_later
      (subscribe (sub_msg sub'.schema sub'.stype_in no_start counter') sub'.symbols
        (is_snapshot sub'.start))
      stopped (λ messages. resubscribe_loop (done ++ (sub' ∷ [])) subs counter' (sent ++ messages))

-- `Resubscribe`
unfoldable pub resubscribe : LiveBlocking → Called
resubscribe c = resubscribe_loop [] c.subscriptions c.sub_counter c.sent
