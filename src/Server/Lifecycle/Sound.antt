-- ===== src/Server/Lifecycle/Sound.antt =====
-- What holds of the process whenever it is looked at.
use microservices_platform.Prelude.{
  ℕ, ◌≡◌, ◌≢◌, refl, ◌⊎◌, inr, String, Bool, true, false, ℤ, none, some, List, [], ◌∷◌, arith,
}
use microservices_platform.Log.{LogLine}
use microservices_platform.Server.Lifecycle.{
  Main, waiting, signalled, noted, armed, draining, drained, cleaned, unpooled, returned, overdue,
  giving_up, forced, Listener, starting, announced, opening, listening, broken, reported, closed,
  aborted, running, expired, Process, initial, is_shut, unless_shut, close, announce, call_listen,
  listen, break, report_failure, abort, interrupt, note_signal, arm, shut_down, drain, overrun,
  report_forced, force, report_clean, close_pool, finish, MainStep, interrupts, notes, arms, shuts,
  drains, fails, overruns, reports_forced, forces, reports_clean, closes_pool, finishes, expire,
  ListenerStep, announces, calls, listens, breaks_opening, breaks, reports, aborts, NetworkStep,
  connects, asks, answers, answers_last, disconnects, Step, main_steps, listener_steps,
  network_steps, expires, Steps, here, next,
}

-- The message has been logged.
abbrev pub Logged : String → List LogLine → Type 0
Logged message [] = ⊥
Logged message (line ∷ lines) = (line.message ≡ message) ⊎ Logged message lines

-- Where main has a context for the shutdown, has seen the last connection close, has logged how it
-- ends, has the pool, and has ended.
abbrev pub is_armed : Main → Bool
is_armed m = elim m [ armed ↦ true | draining ↦ true | _ ↦ false ]

abbrev pub is_drained : Main → Bool
is_drained m = elim m [
  | drained ↦ true
  | cleaned ↦ true
  | unpooled ↦ true
  | returned ↦ true
  | _ ↦ false
]

abbrev pub is_clean : Main → Bool
is_clean m = elim m [ cleaned ↦ true | unpooled ↦ true | returned ↦ true | _ ↦ false ]

abbrev pub is_forced : Main → Bool
is_forced m = elim m [ giving_up ↦ true | forced ↦ true | _ ↦ false ]

abbrev pub has_pool : Main → Bool
has_pool m = elim m [ unpooled ↦ false | returned ↦ false | _ ↦ true ]

abbrev pub is_over : Main → Bool
is_over m = elim m [ returned ↦ true | forced ↦ true | _ ↦ false ]

abbrev pub has_reported : Listener → Bool
has_reported l = elim l [ reported ↦ true | aborted ↦ true | _ ↦ false ]

module _ (timeout : ℤ) where
  pub record IsSound (p : Process) : Type 0 where
    pub timed : is_armed p.main ≡ true → (p.deadline ≡ running timeout) ⊎ (p.deadline ≡ expired)
    pub shut : is_shut p.main ≡ true → p.listener ≢ listening
    pub quiet : is_drained p.main ≡ true → (p.idle ≡ 0) × (p.in_flight ≡ 0)
    pub clean : is_clean p.main ≡ true → Logged "server shut down cleanly" p.lines
    pub overdue_said : is_forced p.main ≡ true → Logged "forced shutdown" p.lines
    pub failure_said : has_reported p.listener ≡ true → Logged "server failed" p.lines
    pub pooled : p.pool_open ≡ has_pool p.main
    pub live : p.ended ≡ none → is_over p.main ≡ false
    pub ended_by :
        (code : ℕ)
        → p.ended ≡ some code
        → ((code ≡ 0) × (p.main ≡ returned))
          ⊎ (((code ≡ 1) × (p.main ≡ forced)) ⊎ ((code ≡ 1) × (p.listener ≡ aborted)))

pub initial-IsSound : (timeout : ℤ) → IsSound timeout initial
unfolding initial
initial-IsSound timeout = record {
  timed = λ e. cc;
  shut = λ e. cc;
  quiet = λ e. cc;
  clean = λ e. cc;
  overdue_said = λ e. cc;
  failure_said = λ e. cc;
  pooled = refl;
  live = λ e. refl;
  ended_by = λ code e. cc;
}

close-ne-listening : (l : Listener) → close l ≢ listening
close-ne-listening starting = λ e. cc
close-ne-listening announced = λ e. cc
close-ne-listening opening = λ e. cc
close-ne-listening listening = λ e. cc
close-ne-listening (broken e) = λ f. cc
close-ne-listening reported = λ e. cc
close-ne-listening closed = λ e. cc
close-ne-listening aborted = λ e. cc

unless_shut-ne-listening : (b : Bool) (l : Listener) → b ≡ true → unless_shut b l ≢ listening
unless_shut-ne-listening true l h = λ e. cc
unless_shut-ne-listening false l h = λ e. cc

close-has_reported : (l : Listener) → has_reported (close l) ≡ has_reported l
close-has_reported starting = refl
close-has_reported announced = refl
close-has_reported opening = refl
close-has_reported listening = refl
close-has_reported (broken e) = refl
close-has_reported reported = refl
close-has_reported closed = refl
close-has_reported aborted = refl

unless_shut-unreported :
    (b : Bool) (l : Listener) → has_reported l ≡ false → has_reported (unless_shut b l) ≡ false
unless_shut-unreported true l h = refl
unless_shut-unreported false l h = h

is_drained-is_shut : (m : Main) → is_drained m ≡ true → is_shut m ≡ true
is_drained-is_shut waiting = λ e. cc
is_drained-is_shut signalled = λ e. cc
is_drained-is_shut noted = λ e. cc
is_drained-is_shut armed = λ e. cc
is_drained-is_shut draining = λ e. cc
is_drained-is_shut drained = λ e. refl
is_drained-is_shut cleaned = λ e. refl
is_drained-is_shut unpooled = λ e. refl
is_drained-is_shut returned = λ e. refl
is_drained-is_shut (overdue e) = λ f. cc
is_drained-is_shut giving_up = λ e. cc
is_drained-is_shut forced = λ e. cc

module _ {timeout : ℤ} {p : Process} (h : IsSound timeout p) where
  MainStep-IsSound : {q : Process} → p.ended ≡ none → MainStep timeout p q → IsSound timeout q
  unfolding interrupt note_signal arm shut_down drain overrun report_forced force report_clean
      close_pool finish
  MainStep-IsSound live (interrupts at) = ground (arith, h.pooled, h.failure_said)
  MainStep-IsSound live (notes at) = ground (arith, h.pooled, h.failure_said)
  MainStep-IsSound live (arms at) = ground (arith, h.pooled, h.failure_said)
  MainStep-IsSound live (shuts at) =
      let unheard = close-ne-listening p.listener in
      let told = close-has_reported p.listener in ground (arith, h.timed, h.pooled, h.failure_said)
  MainStep-IsSound live (drains at none_idle none_left) =
      ground (arith, h.shut, h.pooled, h.failure_said)
  MainStep-IsSound live (fails e at none_idle none_left) =
      ground (arith, h.shut, h.pooled, h.failure_said)
  MainStep-IsSound live (overruns e at late) = ground (arith, h.shut, h.pooled, h.failure_said)
  MainStep-IsSound live (reports_forced e at) = ground (arith, h.shut, h.pooled, h.failure_said)
  MainStep-IsSound live (forces at) =
      ground (arith, h.shut, h.pooled, h.failure_said, h.overdue_said)
  MainStep-IsSound live (reports_clean at) =
      ground (arith, h.shut, h.quiet, h.pooled, h.failure_said)
  MainStep-IsSound live (closes_pool at) =
      ground (arith, h.shut, h.quiet, h.clean, h.pooled, h.failure_said)
  MainStep-IsSound live (finishes at) =
      ground (arith, h.shut, h.quiet, h.clean, h.pooled, h.failure_said)

  -- A step of the goroutine that ends nothing, to a place where the listener is closed if the
  -- server is shut down.
  ListenerStep-IsSound :
      {port : String} {q : Process} → p.ended ≡ none → ListenerStep port p q → IsSound timeout q
  unfolding announce call_listen listen break report_failure abort
  ListenerStep-IsSound {port} live (announces at) =
      ground (arith, h.timed, h.quiet, h.clean, h.overdue_said, h.pooled, h.live)
  ListenerStep-IsSound live (calls at) =
      let unheard = unless_shut-ne-listening (is_shut p.main) opening in
      let told = unless_shut-unreported (is_shut p.main) opening refl in
      ground (arith, h.timed, h.quiet, h.clean, h.overdue_said, h.pooled, h.live)
  ListenerStep-IsSound live (listens at) =
      let unheard = unless_shut-ne-listening (is_shut p.main) listening in
      let told = unless_shut-unreported (is_shut p.main) listening refl in
      ground (arith, h.timed, h.quiet, h.clean, h.overdue_said, h.pooled, h.live)
  ListenerStep-IsSound live (breaks_opening e at) =
      ground (arith, h.timed, h.quiet, h.clean, h.overdue_said, h.pooled, h.live)
  ListenerStep-IsSound live (breaks e at) =
      ground (arith, h.timed, h.quiet, h.clean, h.overdue_said, h.pooled, h.live)
  ListenerStep-IsSound live (reports e at) =
      ground (arith, h.timed, h.quiet, h.clean, h.overdue_said, h.pooled, h.live)
  ListenerStep-IsSound live (aborts at) =
      ground (arith, h.timed, h.quiet, h.clean, h.overdue_said, h.failure_said, h.pooled, h.live)

  NetworkStep-IsSound : {q : Process} → p.ended ≡ none → NetworkStep p q → IsSound timeout q
  NetworkStep-IsSound live (connects on) = ground (
    arith,
    h.timed,
    h.shut,
    h.quiet,
    h.clean,
    h.overdue_said,
    h.failure_said,
    h.pooled,
    h.live,
    is_drained-is_shut p.main,
  )
  NetworkStep-IsSound live (asks some_idle) = ground (
    arith,
    h.timed,
    h.shut,
    h.quiet,
    h.clean,
    h.overdue_said,
    h.failure_said,
    h.pooled,
    h.live,
    is_drained-is_shut p.main,
  )
  NetworkStep-IsSound live (answers some_left unshut) = ground (
    arith,
    h.timed,
    h.shut,
    h.quiet,
    h.clean,
    h.overdue_said,
    h.failure_said,
    h.pooled,
    h.live,
    is_drained-is_shut p.main,
  )
  NetworkStep-IsSound live (answers_last some_left) = ground (
    arith,
    h.timed,
    h.shut,
    h.quiet,
    h.clean,
    h.overdue_said,
    h.failure_said,
    h.pooled,
    h.live,
    is_drained-is_shut p.main,
  )
  NetworkStep-IsSound live (disconnects some_idle) = ground (
    arith,
    h.timed,
    h.shut,
    h.quiet,
    h.clean,
    h.overdue_said,
    h.failure_said,
    h.pooled,
    h.live,
    is_drained-is_shut p.main,
  )

  expire-IsSound : p.ended ≡ none → p.deadline ≡ running timeout → IsSound timeout (expire p)
  expire-IsSound live at = record {
    timed = λ e. inr refl;
    shut = h.shut;
    quiet = h.quiet;
    clean = h.clean;
    overdue_said = h.overdue_said;
    failure_said = h.failure_said;
    pooled = h.pooled;
    live = h.live;
    ended_by = h.ended_by;
  }

  Step-IsSound : {port : String} {q : Process} → Step port timeout p q → IsSound timeout q
  Step-IsSound (main_steps live step) = MainStep-IsSound live step
  Step-IsSound (listener_steps live step) = ListenerStep-IsSound live step
  Step-IsSound (network_steps live step) = NetworkStep-IsSound live step
  Step-IsSound (expires live at) = expire-IsSound live at

pub Steps-IsSound :
    {port : String} {timeout : ℤ} {p : Process} {k : ℕ} {q : Process}
    → IsSound timeout p
    → Steps port timeout p k q
    → IsSound timeout q
Steps-IsSound h here = h
Steps-IsSound h (next run step) = Step-IsSound (Steps-IsSound h run) step
