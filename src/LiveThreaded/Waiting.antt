-- ===== src/LiveThreaded/Waiting.antt =====
-- What `LiveThreaded::BlockForStop` waits for.
use databento_cpp.Base.{
  ◌≡◌, refl, sym, ap, ◌∙◌, Option, none, some, List, [], ◌∷◌, ◌++◌, ◌⊎◌, inl, inr,
}
use mathlib.Core.Path.{subst}
use databento_cpp.Store.{KeepGoing, continue, stop}
use databento_cpp.LiveThreaded.{
  Callbacks, Client, Event, destroy, started, step, run, thread_step, and_then, Program, exited,
  Exit, block_for_stop, block_for_stop_timeout, unless_stopped, stop_if_returned, at_start,
  starting, at_read, reading,
}
use databento_cpp.LiveThreaded.Steps.{IsNotified, notified_by, Then}
use databento_cpp.LiveThreaded.Notify.{
  Then-map, Then-and_then, Then-some, step-Changed, run-IsNotified,
}

-- Nothing happens in a thread that has ended.
abbrev Same : Exit → KeepGoing → Client → Type 0
Same exit k s = (s.program ≡ exited exit) × (s.last_cb_ret ≡ k)

exited_stays :
    (cbs : Callbacks) (exit : Exit) (k : KeepGoing) (event : Event) (s : Client)
    → Same exit k s
    → Then (Same exit k) (step cbs event s)
unfolding step thread_step
exited_stays cbs exit k destroy s h = h
exited_stays cbs exit k event s (at, h) =
    subst (λ p. Then (Same exit k) (thread_step cbs p event s)) (sym at) tt

run-Same :
    (cbs : Callbacks) (exit : Exit) (k : KeepGoing) (events : List Event) (s : Client)
    → Same exit k s
    → Then (Same exit k) (run cbs events s)
unfolding run
run-Same cbs exit k [] s h = h
run-Same cbs exit k (event ∷ events) s h =
    Then-and_then _ _ (step cbs event s) (run cbs events) (exited_stays cbs exit k event s h)
      (λ s' h'. run-Same cbs exit k events s' h')

and_then-none :
    {P : Client → Type 0} (o : Option Client) (f : Client → Option Client)
    → Then P o
    → ((s : Client) → P s → f s ≡ none)
    → and_then o f ≡ none
and_then-none none f t h = refl
and_then-none (some s) f t h = h s t

-- Those who wait at a thread that has ended without a notice wait for ever.
waits_for_ever :
    (cbs : Callbacks) (exit : Exit) (events : List Event) (s : Client)
    → Same exit continue s
    → block_for_stop cbs events s ≡ none
unfolding block_for_stop
waits_for_ever cbs exit [] s (at, h) = rw h refl
waits_for_ever cbs exit (event ∷ events) s (at, h) =
    ap (λ k. unless_stopped k s (and_then (step cbs event s) (block_for_stop cbs events))) h
    ∙ (and_then-none (step cbs event s) (block_for_stop cbs events)
        (exited_stays cbs exit continue event s (at, h)) (waits_for_ever cbs exit events))

-- A notice has been given only by a thread that has ended.
IsNotified-exited :
    (s : Client) → IsNotified s → s.last_cb_ret ≡ stop → (exit : Exit) × (s.program ≡ exited exit)
IsNotified-exited s h e = on_cases s.program refl (sym h ∙ e)
  where
    continue≢stop : continue ≡ stop → ⊥
    continue≢stop e' = cc

    on_cases :
        (p : Program)
        → s.program ≡ p
        → notified_by s.program ≡ stop
        → (exit : Exit) × (s.program ≡ exited exit)
    on_cases (exited exit) at n = (exit, at)
    on_cases at_start at n = absurd (continue≢stop (sym (ap notified_by at) ∙ n))
    on_cases starting at n = absurd (continue≢stop (sym (ap notified_by at) ∙ n))
    on_cases at_read at n = absurd (continue≢stop (sym (ap notified_by at) ∙ n))
    on_cases reading at n = absurd (continue≢stop (sym (ap notified_by at) ∙ n))

none≢some : {s : Client} → none ≡ some s → ⊥
none≢some e = cc

returns_at_once :
    (cbs : Callbacks) (events : List Event) (s : Client)
    → s.last_cb_ret ≡ stop
    → block_for_stop_timeout cbs events s ≡ stop
unfolding block_for_stop_timeout block_for_stop
returns_at_once cbs [] s e = rw e refl
returns_at_once cbs (event ∷ events) s e = rw e refl

abbrev waits_on : Callbacks → Event → List Event → Client → KeepGoing
waits_on cbs event events s =
    stop_if_returned (and_then (step cbs event s) (block_for_stop cbs events))

still_waits :
    (cbs : Callbacks) (event : Event) (events : List Event) (s : Client)
    → s.last_cb_ret ≡ continue
    → block_for_stop_timeout cbs (event ∷ events) s ≡ waits_on cbs event events s
unfolding block_for_stop_timeout block_for_stop
still_waits cbs event events s e = rw e refl

KeepGoing-cases : (k : KeepGoing) → (k ≡ continue) ⊎ (k ≡ stop)
KeepGoing-cases continue = inl refl
KeepGoing-cases stop = inr refl

-- At a thread that has ended.
exited_or_not :
    (cbs : Callbacks) (events : List Event) (s : Client) (exit : Exit)
    → IsNotified s
    → s.program ≡ exited exit
    → block_for_stop_timeout cbs events s ≡ notified_by (exited exit)
unfolding block_for_stop_timeout
exited_or_not cbs events s exit h at =
    let notice : s.last_cb_ret ≡ notified_by (exited exit) = h ∙ ap notified_by at in
    elim (KeepGoing-cases s.last_cb_ret) [
      | inl e ↦ ap stop_if_returned (waits_for_ever cbs exit events s (at, e)) ∙ sym e ∙ notice
      | inr e ↦ returns_at_once cbs events s e ∙ sym e ∙ notice
    ]

-- A notice once given stays.
notice_stays :
    (cbs : Callbacks) (events : List Event) (s s' : Client)
    → IsNotified s
    → s.last_cb_ret ≡ stop
    → run cbs events s ≡ some s'
    → s'.last_cb_ret ≡ stop
notice_stays cbs events s s' h e runs =
    let (exit, at) = IsNotified-exited s h e in
    (Then-some _ (run cbs events s) (run-Same cbs exit stop events s (at, e)) runs).1

value_or : Client → Option Client → Client
value_or s none = s
value_or s (some s') = s'

after_step :
    {s' : Client} {k : KeepGoing} (o : Option Client) (f g : Client → Option Client)
    → Then IsNotified o
    → and_then o f ≡ some s'
    → ((s : Client) → IsNotified s → f s ≡ some s' → stop_if_returned (g s) ≡ k)
    → stop_if_returned (and_then o g) ≡ k
after_step none f g t e h = absurd (none≢some e)
after_step (some s) f g t e h = h s t e

-- From the first state on.
waits_or_returns :
    (cbs : Callbacks) (events more : List Event) (s s' : Client) (exit : Exit)
    → IsNotified s
    → run cbs events s ≡ some s'
    → IsNotified s'
    → s'.program ≡ exited exit
    → block_for_stop_timeout cbs (events ++ more) s ≡ notified_by (exited exit)
unfolding block_for_stop_timeout run value_or
waits_or_returns cbs [] more s s' exit h e h' at =
    exited_or_not cbs more s exit h (ap (λ o. (value_or s o).program) e ∙ at)
waits_or_returns cbs (event ∷ events) more s s' exit h e h' at =
    elim (KeepGoing-cases s.last_cb_ret) [
      | inl waits ↦
          still_waits cbs event (events ++ more) s waits
          ∙ after_step (step cbs event s) (run cbs events) (block_for_stop cbs (events ++ more))
              (Then-map (step cbs event s) (λ s1 t. t.0) (step-Changed cbs event s h)) e
              (λ s1 h1 e1. waits_or_returns cbs events more s1 s' exit h1 e1 h' at)
      | inr given ↦
          returns_at_once cbs (event ∷ (events ++ more)) s given
          ∙ sym (notice_stays cbs (event ∷ events) s s' h given e)
          ∙ h'
          ∙ ap notified_by at
    ]

-- `BlockForStop` on a client whose thread ends, whatever happens before and afterwards: it returns where
-- the callback said stop, or where an exception while reading or in the callback ended the thread; where
-- an exception at the start of a session ended it, or the destructor, it never returns, and with a timeout
-- it says that the client goes on.
pub block_for_stop_lem :
    (cbs : Callbacks) (events more : List Event) (s : Client) (exit : Exit)
    → run cbs events started ≡ some s
    → s.program ≡ exited exit
    → block_for_stop_timeout cbs (events ++ more) started ≡ notified_by (exited exit)
unfolding started
block_for_stop_lem cbs events more s exit e at =
    waits_or_returns cbs events more started s exit refl e (run-IsNotified cbs events s e).0 at
