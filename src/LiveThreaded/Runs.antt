-- ===== src/LiveThreaded/Runs.antt =====
-- Runs of a `LiveThreaded` client.
use databento_cpp.Base.{◌≤◌, ◌≡◌, refl, true, false, some, none, List, [], ◌∷◌, ◌++◌}
use databento_cpp.Store.{continue, stop}
use databento_cpp.Upgrade.{Bytes}
use databento_cpp.Metadata.Runs.{small_metadata}
use databento_cpp.LiveThreaded.{
  restarting, stopping, restart_session, Answer, returns, Callbacks, Client, Event, check,
  timed_out, destroy, session_started, start_failed, read_failed, received, started, step, run,
  exited, on_callback, on_start_exception, at_start, reading, block_for_stop_timeout,
  exception_handler, catch_start, catch_read, on_metadata, on_record, after_record, notify_of_stop,
  stop_session, test_start, test_read, thread_step,
}
use databento_cpp.LiveThreaded.Notify.{run-IsNotified, received_in}
use databento_cpp.LiveThreaded.Waiting.{block_for_stop_lem}
use databento_cpp.LiveThreaded.Ending.{run-destroyed, thread_events, EndedOrEnabled}

-- Stops at the second record; sessions are restarted.
abbrev stop_at_two : List Bytes → Answer
stop_at_two (a ∷ b ∷ seen) = returns stop
stop_at_two _ = returns continue

abbrev restarts : Callbacks
restarts = record {
  metadata_callback = some (λ m. none);
  record_callback = stop_at_two;
  exception_callback = some (λ e. restart_session);
}

abbrev two_sessions : List Event
two_sessions =
    check
    ∷ session_started small_metadata
    ∷ check
    ∷ received (1 ∷ [])
    ∷ check
    ∷ timed_out
    ∷ check
    ∷ read_failed []
    ∷ check
    ∷ start_failed []
    ∷ check
    ∷ session_started small_metadata
    ∷ check
    ∷ received (2 ∷ [])
    ∷ []

abbrev after_two : Client
after_two = record {
  program = exited on_callback;
  keep_going = true;
  last_cb_ret = stop;
  sessions_stopped = 1;
  metadata_calls = small_metadata ∷ small_metadata ∷ [];
  seen = (2 ∷ []) ∷ (1 ∷ []) ∷ [];
  log = restarting [] ∷ restarting [] ∷ [];
}

run_two : run restarts two_sessions started ≡ some after_two
unfolding run step thread_step started test_start test_read on_metadata on_record after_record
    catch_start catch_read exception_handler notify_of_stop stop_session
run_two = refl

run-IsNotified_example :
    (after_two.last_cb_ret ≡ stop) × (after_two.seen ≡ received_in two_sessions [])
run-IsNotified_example = run-IsNotified restarts two_sessions after_two run_two

-- The session cannot be started, and no restart is asked for.
abbrev never : Callbacks
never = record {
  metadata_callback = none;
  record_callback = stop_at_two;
  exception_callback = none;
}

abbrev gave_up : Client
gave_up = record {
  program = exited on_start_exception;
  keep_going = true;
  last_cb_ret = continue;
  sessions_stopped = 1;
  metadata_calls = [];
  seen = [];
  log = stopping [] ∷ [];
}

run_failed : run never (check ∷ start_failed [] ∷ []) started ≡ some gave_up
unfolding run step thread_step started test_start catch_start exception_handler stop_session
run_failed = refl

block_for_stop_lem_example :
    block_for_stop_timeout never ((check ∷ start_failed [] ∷ []) ++ (destroy ∷ [])) started
    ≡ continue
block_for_stop_lem_example =
    block_for_stop_lem never (check ∷ start_failed [] ∷ []) (destroy ∷ []) gave_up
      on_start_exception run_failed refl

-- A client that is destroyed while it reads.
abbrev destroyed_reading : Client
destroyed_reading = record {
  program = reading;
  keep_going = false;
  last_cb_ret = continue;
  sessions_stopped = 0;
  metadata_calls = [];
  seen = [];
  log = [];
}

abbrev destroyed_at_start : Client
destroyed_at_start = record destroyed_reading { program = at_start }

run_destroyed : run restarts (timed_out ∷ check ∷ []) destroyed_reading ≡ some destroyed_at_start
unfolding run step thread_step test_read
run_destroyed = refl

run-destroyed_example :
    (thread_events (timed_out ∷ check ∷ []) ≤ 3) × EndedOrEnabled restarts destroyed_at_start
run-destroyed_example =
    run-destroyed restarts (timed_out ∷ check ∷ []) destroyed_reading destroyed_at_start refl refl
      run_destroyed
