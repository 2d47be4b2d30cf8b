-- ===== src/LiveThreaded/Notify.antt =====
-- What holds of each run of the thread of `LiveThreaded`.
use databento_cpp.Base.{◌≡◌, refl, ap, ◌∙◌, Option, none, some, List, [], ◌∷◌}
use mathlib.Core.Path.{subst}
use databento_cpp.Upgrade.{Bytes}
use databento_cpp.LiveThreaded.{
  Callbacks, Client, Event, destroy, started, step, run, thread_step, and_then,
}
use databento_cpp.LiveThreaded.Steps.{
  IsNotified, notified_by, seen_after, Then, thread_step-Stepped,
}

pub Then-map :
    {P Q : Client → Type 0} (o : Option Client) → ((s : Client) → P s → Q s) → Then P o → Then Q o
Then-map none f h = tt
Then-map (some s) f h = f s h

pub Then-and_then :
    (P Q : Client → Type 0) (o : Option Client) (f : Client → Option Client)
    → Then P o
    → ((s : Client) → P s → Then Q (f s))
    → Then Q (and_then o f)
Then-and_then P Q none f h k = tt
Then-and_then P Q (some s) f h k = k s h

pub Then-some : (P : Client → Type 0) {s : Client} (o : Option Client) → Then P o → o ≡ some s → P s
Then-some P o h e = subst (Then P) e h

-- A step of the thread or of the destructor.
abbrev pub Changed : Event → Client → Client → Type 0
Changed event s s' = IsNotified s' × (s'.seen ≡ seen_after event s.seen)

from_thread :
    (cbs : Callbacks) (event : Event) (s : Client)
    → IsNotified s
    → Then (Changed event s) (thread_step cbs s.program event s)
from_thread cbs event s h =
    Then-map (thread_step cbs s.program event s) (λ s' t. (t.notified, t.told))
      (thread_step-Stepped cbs s.program event s h)

pub step-Changed :
    (cbs : Callbacks) (event : Event) (s : Client)
    → IsNotified s
    → Then (Changed event s) (step cbs event s)
unfolding step
step-Changed cbs destroy s h = (h, refl)
step-Changed cbs event s h = from_thread cbs event s h

-- The records that `NextRecord` returned, the last one first.
abbrev pub received_in : List Event → List Bytes → List Bytes
received_in [] seen = seen
received_in (event ∷ events) seen = received_in events (seen_after event seen)

run-Changed :
    (cbs : Callbacks) (events : List Event) (s : Client)
    → IsNotified s
    → Then (λ s'. IsNotified s' × (s'.seen ≡ received_in events s.seen)) (run cbs events s)
unfolding run
run-Changed cbs [] s h = (h, refl)
run-Changed cbs (event ∷ events) s h =
    Then-and_then (Changed event s) _ (step cbs event s) (run cbs events)
      (step-Changed cbs event s h)
      (λ s' (h', e).
        Then-map (run cbs events s') (λ s'' (h'', e'). (h'', e' ∙ ap (received_in events) e))
          (run-Changed cbs events s' h'))

-- Whatever happens to a new client: the record callback is called once with each record that
-- `NextRecord` returned, in order and across restarts of the session, and those who wait are notified
-- exactly where the thread has ended because the callback said stop, or because of an exception while
-- reading or in the callback for which no restart was asked.
pub run-IsNotified :
    (cbs : Callbacks) (events : List Event) (s : Client)
    → run cbs events started ≡ some s
    → (s.last_cb_ret ≡ notified_by s.program) × (s.seen ≡ received_in events [])
unfolding started
run-IsNotified cbs events s e =
    Then-some _ (run cbs events started) (run-Changed cbs events started refl) e
