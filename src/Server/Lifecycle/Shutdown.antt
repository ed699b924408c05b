-- ===== src/Server/Lifecycle/Shutdown.antt =====
-- How long a shutdown takes.
use microservices_platform.Prelude.{
  ℕ, suc, ◌+◌, ◌*◌, ◌≤◌, ◌≡◌, refl, ◌⊎◌, inl, inr, String, Bool, true, false, ℤ, Option, none, some,
  arith,
}
use microservices_platform.Errors.{Error, foreign}
use microservices_platform.Server.Lifecycle.{
  Main, waiting, signalled, noted, armed, draining, drained, cleaned, unpooled, returned, overdue,
  giving_up, forced, Listener, starting, announced, opening, listening, broken, reported, closed,
  aborted, Deadline, unset, running, expired, Process, initial, is_shut, unless_shut, announce,
  call_listen, listen, break, report_failure, abort, interrupt, note_signal, arm, shut_down, drain,
  overrun, report_forced, force, report_clean, close_pool, finish, MainStep, interrupts, notes,
  arms, shuts, drains, fails, overruns, reports_forced, forces, reports_clean, closes_pool,
  finishes, ListenerStep, announces, calls, listens, breaks_opening, breaks, reports, aborts,
  NetworkStep, connects, asks, answers, answers_last, disconnects, Step, main_steps, listener_steps,
  network_steps, expires, Steps, here, next,
}
use microservices_platform.Server.Lifecycle.Sound.{is_over, IsSound, initial-IsSound, Steps-IsSound}

-- The statements that are left of main, from the call of `Shutdown` on, and of the goroutine.
abbrev main_left : Main → ℕ
main_left waiting = 0
main_left signalled = 0
main_left noted = 0
main_left armed = 0
main_left draining = 4
main_left drained = 3
main_left cleaned = 2
main_left unpooled = 1
main_left returned = 0
main_left (overdue e) = 2
main_left giving_up = 1
main_left forced = 0

abbrev listener_left : Listener → ℕ
listener_left starting = 5
listener_left announced = 4
listener_left opening = 3
listener_left listening = 0
listener_left (broken e) = 2
listener_left reported = 1
listener_left closed = 0
listener_left aborted = 0

listener_left_bound : (l : Listener) → listener_left l ≤ 5
listener_left_bound starting = omega arith
listener_left_bound announced = omega arith
listener_left_bound opening = omega arith
listener_left_bound listening = omega arith
listener_left_bound (broken e) = omega arith
listener_left_bound reported = omega arith
listener_left_bound closed = omega arith
listener_left_bound aborted = omega arith

abbrev deadline_left : Deadline → ℕ
deadline_left unset = 0
deadline_left (running t) = 1
deadline_left expired = 0

deadline_left_bound : (d : Deadline) → deadline_left d ≤ 1
deadline_left_bound unset = omega arith
deadline_left_bound (running t) = omega arith
deadline_left_bound expired = omega arith

unless_shut-less : (b : Bool) (l : Listener) → b ≡ true → listener_left (unless_shut b l) ≡ 0
unless_shut-less true l h = refl
unless_shut-less false l h = cc

-- A request on an idle connection is two steps: it comes in and it is answered.
abbrev left : Process → ℕ
left p =
    main_left p.main
    + listener_left p.listener
    + deadline_left p.deadline
    + 2 * p.idle
    + p.in_flight

-- The connections that are left.
abbrev open_count : Process → ℕ
open_count p = p.idle + p.in_flight

-- A step while the server is shut down.
abbrev Less : Process → Process → Type 0
Less p q = (suc (left q) ≤ left p) × (is_shut q.main ≡ true) × (open_count q ≤ open_count p)

module _ {timeout : ℤ} where
  module _ {p : Process} (h : IsSound timeout p) (shut : is_shut p.main ≡ true) where
    MainStep-Less : {q : Process} → MainStep timeout p q → Less p q
    unfolding interrupt note_signal arm shut_down drain overrun report_forced force report_clean
        close_pool finish
    MainStep-Less (interrupts at) = absurd (cc)
    MainStep-Less (notes at) = absurd (cc)
    MainStep-Less (arms at) = absurd (cc)
    MainStep-Less (shuts at) = absurd (cc)
    MainStep-Less (drains at none_idle none_left) = ground arith
    MainStep-Less (fails e at none_idle none_left) = ground arith
    MainStep-Less (overruns e at late) = ground arith
    MainStep-Less (reports_forced e at) = ground arith
    MainStep-Less (forces at) = ground arith
    MainStep-Less (reports_clean at) = ground arith
    MainStep-Less (closes_pool at) = ground arith
    MainStep-Less (finishes at) = ground arith

    ListenerStep-Less : {port : String} {q : Process} → ListenerStep port p q → Less p q
    unfolding announce call_listen listen break report_failure abort
    ListenerStep-Less (announces at) = ground arith
    ListenerStep-Less (calls at) =
        let gone = unless_shut-less (is_shut p.main) opening shut in ground arith
    ListenerStep-Less (listens at) =
        let gone = unless_shut-less (is_shut p.main) listening shut in ground arith
    ListenerStep-Less (breaks_opening e at) = ground arith
    ListenerStep-Less (breaks e at) = absurd (h.shut shut at)
    ListenerStep-Less (reports e at) = ground arith
    ListenerStep-Less (aborts at) = ground arith

    NetworkStep-Less : {q : Process} → NetworkStep p q → Less p q
    NetworkStep-Less (connects on) = absurd (h.shut shut on)
    NetworkStep-Less (asks some_idle) = (omega arith, shut, omega arith)
    NetworkStep-Less (answers some_left unshut) = absurd (cc)
    NetworkStep-Less (answers_last some_left) = (omega arith, shut, omega arith)
    NetworkStep-Less (disconnects some_idle) = (omega arith, shut, omega arith)

    Step-Less : {port : String} {q : Process} → Step port timeout p q → Less p q
    Step-Less (main_steps live step) = MainStep-Less step
    Step-Less (listener_steps live step) = ListenerStep-Less step
    Step-Less (network_steps live step) = NetworkStep-Less step
    Step-Less (expires live at) = ground arith

  Steps-Less :
      {port : String} {p : Process} {k : ℕ} {q : Process}
      → IsSound timeout p
      → is_shut p.main ≡ true
      → Steps port timeout p k q
      → (k + left q ≤ left p) × (is_shut q.main ≡ true) × (open_count q ≤ open_count p)
  Steps-Less h shut here = (omega arith, shut, omega arith)
  Steps-Less h shut (next run step) =
      let (bound, still, fewer) = Steps-Less h shut run in
      let (less, shut_after, fewer_after) = Step-Less (Steps-IsSound h run) still step in
      (omega arith, shut_after, omega arith)

-- The error of `Shutdown` at its deadline.
abbrev late_error : Error
late_error = foreign false "context deadline exceeded"

-- A step that the connections and their requests have no part in: of main, or of the timer of its
-- context.
pub data OwnStep (timeout : ℤ) (p : Process) : Type 0 where
  of_main : {q : Process} → MainStep timeout p q → OwnStep timeout p
  of_timer : p.deadline ≡ running timeout → OwnStep timeout p

module _ {timeout : ℤ} {p : Process} (h : IsSound timeout p) where
  draining-OwnStep : p.main ≡ draining → OwnStep timeout p
  draining-OwnStep at = elim (h.timed (ground arith)) [
    | inl on ↦ of_timer on
    | inr late ↦ of_main (overruns late_error at late)
  ]

  shut-OwnStep : (m : Main) → p.main ≡ m → is_shut m ≡ true → is_over m ≡ false → OwnStep timeout p
  shut-OwnStep waiting at shut live = absurd (cc)
  shut-OwnStep signalled at shut live = absurd (cc)
  shut-OwnStep noted at shut live = absurd (cc)
  shut-OwnStep armed at shut live = absurd (cc)
  shut-OwnStep draining at shut live = draining-OwnStep at
  shut-OwnStep drained at shut live = of_main (reports_clean at)
  shut-OwnStep cleaned at shut live = of_main (closes_pool at)
  shut-OwnStep unpooled at shut live = of_main (finishes at)
  shut-OwnStep returned at shut live = absurd (cc)
  shut-OwnStep (overdue e) at shut live = of_main (reports_forced e at)
  shut-OwnStep giving_up at shut live = of_main (forces at)
  shut-OwnStep forced at shut live = absurd (cc)

  ended-or-OwnStep :
      is_shut p.main ≡ true
      → (e : Option ℕ) → p.ended ≡ e
      → ((code : ℕ) × (p.ended ≡ some code)) ⊎ ((p.ended ≡ none) × OwnStep timeout p)
  ended-or-OwnStep shut none live = inr (live, shut-OwnStep p.main refl shut (h.live live))
  ended-or-OwnStep shut (some code) at = inl (code, at)

-- Once main is in Shutdown, in any order of the statements of main and of the goroutine, of the
-- requests and of the timer of the context, at most ten more steps follow than requests in flight
-- and twice the connections without one; no further connection is accepted, although those that
-- were accepted may still bring a request; and until the process has ended, the next statement of
-- main or the timer can run, whether or not the requests ever end. Assumes what net/http documents
-- (MainStep, ListenerStep, NetworkStep): Shutdown closes the listeners, closes idle connections
-- and waits for the others to become idle, a listener that is opened after it is closed at once,
-- no idle connection is kept after it, and it returns when its context is done.
pub shutdown-Exits :
    {port : String} {timeout : ℤ} {j k : ℕ} {p q : Process}
    → Steps port timeout initial j p
    → p.main ≡ draining
    → Steps port timeout p k q
    → (k ≤ 2 * p.idle + p.in_flight + 10)
      × (q.idle + q.in_flight ≤ p.idle + p.in_flight)
      × (((code : ℕ) × (q.ended ≡ some code)) ⊎ ((q.ended ≡ none) × OwnStep timeout q))
shutdown-Exits {port} {timeout} {j} {k} {p} {q} reached at run =
    let h = Steps-IsSound (initial-IsSound timeout) reached in
    let (bound, still, fewer) = Steps-Less h (ground arith) run in
    (
      ground (arith, bound, listener_left_bound p.listener, deadline_left_bound p.deadline),
      fewer,
      ended-or-OwnStep (Steps-IsSound h run) still q.ended refl,
    )
