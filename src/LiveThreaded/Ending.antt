-- ===== src/LiveThreaded/Ending.antt =====
-- How the thread of `LiveThreaded` ends once its client is destroyed.
use databento_cpp.Base.{
  ℕ, ◌+◌, ◌≤◌, ◌≡◌, refl, ap, ◌∙◌, arith, ◌⊎◌, inl, inr, some, List, [], ◌∷◌, false,
}
use databento_cpp.LiveThreaded.{
  Callbacks, Client, Event, check, timed_out, destroy, start_failed, step, run, thread_step,
  Program, at_start, starting, at_read, reading, exited, Exit, test_start, test_read, catch_start,
}
use databento_cpp.LiveThreaded.Steps.{IsNotified, left_to_do, Then, thread_step-Stepped}
use databento_cpp.LiveThreaded.Notify.{Then-map, Then-and_then, Then-some}

-- How many of the events are steps of the thread.
abbrev one_unless_destroy : Event → ℕ
one_unless_destroy destroy = 0
one_unless_destroy _ = 1

abbrev pub thread_events : List Event → ℕ
thread_events [] = 0
thread_events (event ∷ events) = one_unless_destroy event + thread_events events

-- A client whose thread has been told to end; `most` bounds what the thread has still to do.
abbrev Told : ℕ → Client → Type 0
Told most s = IsNotified s × (s.keep_going ≡ false) × (left_to_do s.program ≤ most)

step-Told :
    (cbs : Callbacks) (event : Event) (s : Client)
    → IsNotified s
    → s.keep_going ≡ false
    → Then
        (λ s'.
          IsNotified s'
          × (s'.keep_going ≡ false)
          × (one_unless_destroy event + left_to_do s'.program ≤ left_to_do s.program))
        (step cbs event s)
unfolding step
step-Told cbs destroy s h off = (h, refl, omega arith)
step-Told cbs event s h off =
    Then-map (thread_step cbs s.program event s)
      (λ s' t. (t.notified, t.kept ∙ off, omega (arith, t.nearer off)))
      (thread_step-Stepped cbs s.program event s h)

run-Told :
    (cbs : Callbacks) (events : List Event) (s : Client)
    → IsNotified s
    → s.keep_going ≡ false
    → Then
        (λ s'. thread_events events + left_to_do s'.program ≤ left_to_do s.program)
        (run cbs events s)
unfolding run
run-Told cbs [] s h off = omega arith
run-Told cbs (event ∷ events) s h off =
    Then-and_then _ _ (step cbs event s) (run cbs events) (step-Told cbs event s h off)
      (λ s' (h', off', less).
        Then-map (run cbs events s') (λ s'' less'. omega arith) (run-Told cbs events s' h' off'))

-- The thread has ended, or one of its events can happen.
abbrev pub EndedOrEnabled : Callbacks → Client → Type 0
EndedOrEnabled cbs s =
    ((exit : Exit) × (s.program ≡ exited exit))
    ⊎ ((event : Event) × (one_unless_destroy event ≡ 1)
        × (s' : Client) × (step cbs event s ≡ some s'))

ended_or_enabled : (cbs : Callbacks) (s : Client) → EndedOrEnabled cbs s
unfolding step thread_step
ended_or_enabled cbs s = on_cases s.program refl
  where
    enabled :
        (p : Program) (event : Event) (s' : Client)
        → s.program ≡ p
        → thread_step cbs p event s ≡ some s'
        → thread_step cbs s.program event s ≡ some s'
    enabled p event s' at e = ap (λ q. thread_step cbs q event s) at ∙ e

    on_cases : (p : Program) → s.program ≡ p → EndedOrEnabled cbs s
    on_cases at_start at = inr (check, refl, test_start s, enabled at_start check _ at refl)
    on_cases starting at =
        inr (
          start_failed [],
          refl,
          catch_start cbs [] s,
          enabled starting (start_failed []) _ at refl,
        )
    on_cases at_read at = inr (check, refl, test_read s, enabled at_read check _ at refl)
    on_cases reading at =
        inr (timed_out, refl, record s { program = at_read }, enabled reading timed_out _ at refl)
    on_cases (exited exit) at = inl (exit, at)

at_most_three : (p : Program) → left_to_do p ≤ 3
at_most_three at_start = omega arith
at_most_three at_read = omega arith
at_most_three starting = omega arith
at_most_three reading = omega arith
at_most_three (exited exit) = omega arith

-- Where the client has been destroyed, its thread takes at most three more steps, whatever happens and
-- whatever the callbacks say, and until it has ended it can take one.
pub run-destroyed :
    (cbs : Callbacks) (events : List Event) (s s' : Client)
    → IsNotified s
    → s.keep_going ≡ false
    → run cbs events s ≡ some s'
    → (thread_events events ≤ 3) × EndedOrEnabled cbs s'
run-destroyed cbs events s s' h off e =
    let less = Then-some _ (run cbs events s) (run-Told cbs events s h off) e in
    (omega (arith, at_most_three s.program), ended_or_enabled cbs s')
