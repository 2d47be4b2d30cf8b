-- ===== src/LiveThreaded/Steps.antt =====
-- What a step of the thread of `LiveThreaded` does, whichever it is.
use databento_cpp.Base.{ℕ, ◌<◌, ◌≡◌, refl, arith, Option, none, some, List, ◌∷◌, Bool, true, false}
use databento_cpp.Metadata.{Metadata}
use databento_cpp.Store.{KeepGoing, continue, stop}
use databento_cpp.Upgrade.{Bytes}
use databento_cpp.LiveThreaded.{
  Exception, ExceptionAction, restart_session, stop_thread, Answer, returns, throws, Callbacks,
  on_destruction, on_callback, on_read_exception, Program, at_start, starting, at_read, reading,
  exited, Client, Event, check, timed_out, session_started, start_failed, read_failed, received,
  notify_of_stop, stop_session, answer_of, on_action, exception_handler, after_start_exception,
  after_read_exception, catch_start, catch_read, after_metadata, with_callback, on_metadata,
  after_record, on_record, test_start, test_read, thread_step,
}

-- The thread notifies where it ends by the callback or by an exception while it reads, and only there.
abbrev pub notified_by : Program → KeepGoing
notified_by (exited on_callback) = stop
notified_by (exited on_read_exception) = stop
notified_by _ = continue

abbrev pub IsNotified : Client → Type 0
IsNotified s = s.last_cb_ret ≡ notified_by s.program

-- How many events the thread needs at most to end, once it is told to.
abbrev pub left_to_do : Program → ℕ
left_to_do at_start = 1
left_to_do at_read = 2
left_to_do starting = 3
left_to_do reading = 3
left_to_do (exited e) = 0

-- The records that the callback has been called with.
abbrev pub seen_after : Event → List Bytes → List Bytes
seen_after (received rec) seen = rec ∷ seen
seen_after _ seen = seen

-- What each step keeps to: `before` is where the thread was, `seen` what the callback was called with,
-- `keep_going` what the tests will find.
pub record Stepped (left : ℕ) (seen : List Bytes) (keep_going : Bool) (s' : Client) : Type 0 where
  pub notified : IsNotified s'
  pub nearer : keep_going ≡ false → left_to_do s'.program < left
  pub told : s'.seen ≡ seen
  pub kept : s'.keep_going ≡ keep_going

catch_start-Stepped :
    (cbs : Callbacks) (e : Exception) (s : Client)
    → s.last_cb_ret ≡ continue
    → Stepped 3 s.seen s.keep_going (catch_start cbs e s)
unfolding catch_start exception_handler stop_session
catch_start-Stepped cbs e s h = on_cases (answer_of cbs.exception_callback e)
  where
    on_cases :
        (a : ExceptionAction)
        → Stepped 3 s.seen s.keep_going (after_start_exception (on_action a e s))
    on_cases restart_session = record {
      notified = h;
      nearer = λ _. omega arith;
      told = refl;
      kept = refl;
    }
    on_cases stop_thread = record {
      notified = h;
      nearer = λ _. omega arith;
      told = refl;
      kept = refl;
    }

catch_read-Stepped :
    (cbs : Callbacks) (e : Exception) (s : Client)
    → s.last_cb_ret ≡ continue
    → Stepped 3 s.seen s.keep_going (catch_read cbs e s)
unfolding catch_read exception_handler stop_session notify_of_stop
catch_read-Stepped cbs e s h = on_cases (answer_of cbs.exception_callback e)
  where
    on_cases :
        (a : ExceptionAction)
        → Stepped 3 s.seen s.keep_going (after_read_exception (on_action a e s))
    on_cases restart_session = record {
      notified = h;
      nearer = λ _. omega arith;
      told = refl;
      kept = refl;
    }
    on_cases stop_thread = record {
      notified = refl;
      nearer = λ _. omega arith;
      told = refl;
      kept = refl;
    }

on_metadata-Stepped :
    (cbs : Callbacks) (m : Metadata) (s : Client)
    → s.last_cb_ret ≡ continue
    → Stepped 3 s.seen s.keep_going (on_metadata cbs m s)
unfolding on_metadata
on_metadata-Stepped cbs m s h = on_cases cbs.metadata_callback
  where
    thrown_or_not :
        (o : Option Exception) (s' : Client)
        → s'.last_cb_ret ≡ continue
        → Stepped 3 s'.seen s'.keep_going (after_metadata cbs o s')
    thrown_or_not none s' h' = record {
      notified = h';
      nearer = λ _. omega arith;
      told = refl;
      kept = refl;
    }
    thrown_or_not (some e) s' h' = catch_start-Stepped cbs e s' h'

    on_cases :
        (o : Option (Metadata → Option Exception))
        → Stepped 3 s.seen s.keep_going (with_callback cbs o m s)
    on_cases none = record { notified = h; nearer = λ _. omega arith; told = refl; kept = refl }
    on_cases (some callback) =
        thrown_or_not (callback m) (record s { metadata_calls = m ∷ s.metadata_calls }) h

on_record-Stepped :
    (cbs : Callbacks) (rec : Bytes) (s : Client)
    → s.last_cb_ret ≡ continue
    → Stepped 3 (rec ∷ s.seen) s.keep_going (on_record cbs rec s)
unfolding on_record after_record notify_of_stop stop_session
on_record-Stepped cbs rec s h =
    on_cases (cbs.record_callback (rec ∷ s.seen)) (record s { seen = rec ∷ s.seen }) h
  where
    on_cases :
        (a : Answer) (s' : Client)
        → s'.last_cb_ret ≡ continue
        → Stepped 3 s'.seen s'.keep_going (after_record cbs a s')
    on_cases (returns continue) s' h' = record {
      notified = h';
      nearer = λ _. omega arith;
      told = refl;
      kept = refl;
    }
    on_cases (returns stop) s' h' = record {
      notified = refl;
      nearer = λ _. omega arith;
      told = refl;
      kept = refl;
    }
    on_cases (throws e) s' h' = catch_read-Stepped cbs e s' h'

true≢false : true ≡ false → ⊥
true≢false e = cc

test_start-Stepped :
    (s : Client) → s.last_cb_ret ≡ continue → Stepped 1 s.seen s.keep_going (test_start s)
unfolding test_start
test_start-Stepped s h = on_cases s.keep_going
  where
    on_cases :
        (k : Bool)
        → Stepped 1 s.seen k (record s {
          keep_going = k;
          program = elim k [ true ↦ starting | false ↦ exited on_destruction ];
        })
    on_cases true = record {
      notified = h;
      nearer = λ e. absurd (true≢false e);
      told = refl;
      kept = refl;
    }
    on_cases false = record { notified = h; nearer = λ _. omega arith; told = refl; kept = refl }

test_read-Stepped :
    (s : Client) → s.last_cb_ret ≡ continue → Stepped 2 s.seen s.keep_going (test_read s)
unfolding test_read
test_read-Stepped s h = on_cases s.keep_going
  where
    on_cases :
        (k : Bool)
        → Stepped 2 s.seen k
            (record s { keep_going = k; program = elim k [ true ↦ reading | false ↦ at_start ] })
    on_cases true = record {
      notified = h;
      nearer = λ e. absurd (true≢false e);
      told = refl;
      kept = refl;
    }
    on_cases false = record { notified = h; nearer = λ _. omega arith; told = refl; kept = refl }

-- A property of the state after a step, if the step can be taken.
abbrev pub Then : (Client → Type 0) → Option Client → Type 0
Then P none = Unit
Then P (some s) = P s

-- Each step of the thread.
pub thread_step-Stepped :
    (cbs : Callbacks) (program : Program) (event : Event) (s : Client)
    → s.last_cb_ret ≡ notified_by program
    → Then
        (Stepped (left_to_do program) (seen_after event s.seen) s.keep_going)
        (thread_step cbs program event s)
unfolding thread_step
thread_step-Stepped cbs at_start check s h = test_start-Stepped s h
thread_step-Stepped cbs starting (session_started m) s h = on_metadata-Stepped cbs m s h
thread_step-Stepped cbs starting (start_failed e) s h = catch_start-Stepped cbs e s h
thread_step-Stepped cbs at_read check s h = test_read-Stepped s h
thread_step-Stepped cbs reading timed_out s h = record {
  notified = h;
  nearer = λ _. omega arith;
  told = refl;
  kept = refl;
}
thread_step-Stepped cbs reading (received rec) s h = on_record-Stepped cbs rec s h
thread_step-Stepped cbs reading (read_failed e) s h = catch_read-Stepped cbs e s h
thread_step-Stepped cbs _ _ s h = tt
