-- ===== src/LiveThreaded.antt =====
-- src/live_threaded.cpp: `LiveThreaded`, whose thread starts sessions, calls back with their records and
-- restarts or stops on exceptions, while other threads wait for it to stop. Each step of the thread is an
-- event: a test of `keep_going`, or what a call of `LiveBlocking` returned or threw.
pub mod Steps
pub mod Notify
pub mod Waiting
pub mod Ending
mod Runs
use databento_cpp.Base.{ℕ, ◌+◌, Bool, true, false, Option, none, some, List, [], ◌∷◌}
use databento_cpp.Metadata.{Metadata, Text}
use databento_cpp.Store.{KeepGoing, continue, stop}
use databento_cpp.Upgrade.{Bytes}

-- A `std::exception`, by its `what()`.
abbrev pub Exception : Type 0
Exception = Text

pub data ExceptionAction : Type 0 where
  restart_session stop_thread : ExceptionAction

-- How a call of the record callback ends.
pub data Answer : Type 0 where
  returns : KeepGoing → Answer
  throws : Exception → Answer

-- The callbacks of `Start`. The record callback may depend on all the records that it was called with,
-- the last one first; the metadata callback may throw.
pub record Callbacks : Type 0 where
  pub metadata_callback : Option (Metadata → Option Exception)
  pub record_callback : List Bytes → Answer
  pub exception_callback : Option (Exception → ExceptionAction)

-- Why the thread has returned.
pub data Exit : Type 0 where
  on_destruction on_callback on_start_exception on_read_exception : Exit

-- Where the thread is: at the test of the outer loop, in `LiveBlocking::Start`, at the test of the inner
-- loop, in `LiveBlocking::NextRecord`, or behind its end.
pub data Program : Type 0 where
  at_start starting at_read reading : Program
  exited : Exit → Program

-- What the log receiver is told of an exception.
pub data LogEntry : Type 0 where
  restarting stopping : Exception → LogEntry

-- `sessions_stopped` counts the calls of `LiveBlocking::Stop`; `seen`, `metadata_calls` and `log` hold the
-- last call first.
pub record Client : Type 0 where
  pub program : Program
  pub keep_going : Bool
  pub last_cb_ret : KeepGoing
  pub sessions_stopped : ℕ
  pub metadata_calls : List Metadata
  pub seen : List Bytes
  pub log : List LogEntry

-- `LiveThreaded::Start` on a new client.
unfoldable pub started : Client
started = record {
  program = at_start;
  keep_going = true;
  last_cb_ret = continue;
  sessions_stopped = 0;
  metadata_calls = [];
  seen = [];
  log = [];
}

-- What may happen next. `destroy` is the destructor's write to `keep_going`, in another thread.
pub data Event : Type 0 where
  check timed_out destroy : Event
  session_started : Metadata → Event
  start_failed read_failed : Exception → Event
  received : Bytes → Event

-- `Impl::NotifyOfStop`
unfoldable pub notify_of_stop : Client → Client
notify_of_stop s = record s { last_cb_ret = stop }

-- `LiveBlocking::Stop`, which closes the connection; it is taken not to throw.
unfoldable pub stop_session : Client → Client
stop_session s = record s { sessions_stopped = s.sessions_stopped + 1 }

abbrev pub answer_of : Option (Exception → ExceptionAction) → Exception → ExceptionAction
answer_of none e = stop_thread
answer_of (some callback) e = callback e

abbrev pub on_action : ExceptionAction → Exception → Client → ExceptionAction × Client
on_action restart_session e s = (restart_session, record s { log = restarting e ∷ s.log })
on_action stop_thread e s =
    let s' = stop_session s in (stop_thread, record s' { log = stopping e ∷ s'.log })

-- `LiveThreaded::ExceptionHandler`
unfoldable pub exception_handler : Callbacks → Exception → Client → ExceptionAction × Client
exception_handler cbs e s = on_action (answer_of cbs.exception_callback e) e s

-- The two `catch` blocks.
abbrev pub after_start_exception : ExceptionAction × Client → Client
after_start_exception (restart_session, s) = record s { program = at_start }
after_start_exception (stop_thread, s) = record s { program = exited on_start_exception }

abbrev pub after_read_exception : ExceptionAction × Client → Client
after_read_exception (restart_session, s) = record s { program = at_start }
after_read_exception (stop_thread, s) = record (notify_of_stop s) {
  program = exited on_read_exception;
}

unfoldable pub catch_start : Callbacks → Exception → Client → Client
catch_start cbs e s = after_start_exception (exception_handler cbs e s)

unfoldable pub catch_read : Callbacks → Exception → Client → Client
catch_read cbs e s = after_read_exception (exception_handler cbs e s)

-- The metadata callback, where there is one.
abbrev pub after_metadata : Callbacks → Option Exception → Client → Client
after_metadata cbs none s = record s { program = at_read }
after_metadata cbs (some e) s = catch_start cbs e s

abbrev pub with_callback :
    Callbacks → Option (Metadata → Option Exception) → Metadata → Client → Client
with_callback cbs none m s = record s { program = at_read }
with_callback cbs (some callback) m s =
    after_metadata cbs (callback m) (record s { metadata_calls = m ∷ s.metadata_calls })

unfoldable pub on_metadata : Callbacks → Metadata → Client → Client
on_metadata cbs m s = with_callback cbs cbs.metadata_callback m s

-- What follows the call of the record callback.
unfoldable pub after_record : Callbacks → Answer → Client → Client
after_record cbs (returns continue) s = record s { program = at_read }
after_record cbs (returns stop) s = record (notify_of_stop (stop_session s)) {
  program = exited on_callback;
}
after_record cbs (throws e) s = catch_read cbs e s

unfoldable pub on_record : Callbacks → Bytes → Client → Client
on_record cbs rec s =
    let s' = record s { seen = rec ∷ s.seen } in after_record cbs (cbs.record_callback s'.seen) s'

-- The tests of the loops.
unfoldable pub test_start : Client → Client
test_start s = record s {
  program = elim s.keep_going [ true ↦ starting | false ↦ exited on_destruction ];
}

unfoldable pub test_read : Client → Client
test_read s = record s { program = elim s.keep_going [ true ↦ reading | false ↦ at_start ] }

-- A step of `LiveThreaded::ProcessingThread`; `none` for an event that cannot happen there.
unfoldable pub thread_step : Callbacks → Program → Event → Client → Option Client
thread_step cbs at_start check s = some (test_start s)
thread_step cbs starting (session_started m) s = some (on_metadata cbs m s)
thread_step cbs starting (start_failed e) s = some (catch_start cbs e s)
thread_step cbs at_read check s = some (test_read s)
thread_step cbs reading timed_out s = some (record s { program = at_read })
thread_step cbs reading (received rec) s = some (on_record cbs rec s)
thread_step cbs reading (read_failed e) s = some (catch_read cbs e s)
thread_step cbs program event s = none

-- A step of the thread or of the destructor.
unfoldable pub step : Callbacks → Event → Client → Option Client
step cbs destroy s = some (record s { keep_going = false })
step cbs event s = thread_step cbs s.program event s

abbrev pub and_then : Option Client → (Client → Option Client) → Option Client
and_then none f = none
and_then (some s) f = f s

unfoldable pub run : Callbacks → List Event → Client → Option Client
run cbs [] s = some s
run cbs (event ∷ events) s = and_then (step cbs event s) (run cbs events)

-- `LiveThreaded::BlockForStop` over the events that happen meanwhile: the state in which it returns, or
-- `none` where it still waits after them.
abbrev pub unless_stopped : KeepGoing → Client → Option Client → Option Client
unless_stopped stop s later = some s
unless_stopped continue s later = later

unfoldable pub block_for_stop : Callbacks → List Event → Client → Option Client
block_for_stop cbs [] s = unless_stopped s.last_cb_ret s none
block_for_stop cbs (event ∷ events) s =
    unless_stopped s.last_cb_ret s (and_then (step cbs event s) (block_for_stop cbs events))

-- `LiveThreaded::BlockForStop(timeout)` over the events before the timeout.
abbrev stop_if_returned : Option Client → KeepGoing
stop_if_returned none = continue
stop_if_returned (some s) = stop

unfoldable pub block_for_stop_timeout : Callbacks → List Event → Client → KeepGoing
block_for_stop_timeout cbs events s = stop_if_returned (block_for_stop cbs events s)
