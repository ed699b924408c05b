-- ===== src/Server/Lifecycle.antt =====
-- cmd/server/main.go from the start of the listener on: the goroutine that listens, and main, which
-- waits for a signal and shuts the server down. A step is one statement of one of the two.
pub mod Sound
pub mod Exits
pub mod Shutdown
mod Tests
use microservices_platform.Prelude.{
  ℕ, suc, ◌-◌, ◌<◌, ◌≡◌, String, Bool, true, false, ℤ, Option, none, some, List, [], ◌∷◌,
}
use microservices_platform.Errors.{Error}
use microservices_platform.Log.{LogLine, Level, Value}
use microservices_platform.Server.{error_line}

-- Where main is: at `<-quit`, past it, past its log line, with a context for the shutdown, in
-- `srv.Shutdown`, past it with nil or with an error, past the log line of either, past `pool.Close`,
-- at its end, or in `os.Exit`.
pub data Main : Type 0 where
  waiting : Main
  signalled : Main
  noted : Main
  armed : Main
  draining : Main
  drained : Main
  cleaned : Main
  unpooled : Main
  returned : Main
  overdue : Error → Main
  giving_up : Main
  forced : Main

-- Where the goroutine is: before its log line, past it, in `ListenAndServe` without and with an open
-- listener, past it with an error that is not ErrServerClosed, past the log line of that, at its
-- end, or in `os.Exit`.
pub data Listener : Type 0 where
  starting : Listener
  announced : Listener
  opening : Listener
  listening : Listener
  broken : Error → Listener
  reported : Listener
  closed : Listener
  aborted : Listener

-- The context of the shutdown, with its timeout.
pub data Deadline : Type 0 where
  unset : Deadline
  running : ℤ → Deadline
  expired : Deadline

-- The process: its two threads, the connections without a request under way, the requests in flight,
-- the context of the shutdown, whether the pool is open, what was logged, the last line first, and
-- the exit code once it has ended.
pub record Process : Type 0 where
  pub main : Main
  pub listener : Listener
  pub idle : ℕ
  pub in_flight : ℕ
  pub deadline : Deadline
  pub pool_open : Bool
  pub lines : List LogLine
  pub ended : Option ℕ

pub initial : Process
initial = record {
  main = waiting;
  listener = starting;
  idle = 0;
  in_flight = 0;
  deadline = unset;
  pool_open = true;
  lines = [];
  ended = none;
}

abbrev pub info_line : String → List (String × Value) → LogLine
info_line message attrs = record { level = Level.info; message = message; attrs = attrs }

abbrev pub say : LogLine → Process → Process
say line p = record p { lines = line ∷ p.lines }

-- Whether `Shutdown` has been called, which closes the listeners.
abbrev pub is_shut : Main → Bool
is_shut m = elim m [
  | waiting ↦ false
  | signalled ↦ false
  | noted ↦ false
  | armed ↦ false
  | _ ↦ true
]

-- A server that is shut down opens no listener: `ListenAndServe` returns ErrServerClosed.
abbrev pub unless_shut : Bool → Listener → Listener
unless_shut true l = closed
unless_shut false l = l

-- The listener that `Shutdown` closes.
abbrev pub close : Listener → Listener
close l = elim l [ listening ↦ closed | other ↦ other ]

-- `logger.Info("order-service listening", ...)`
pub announce : String → Process → Process
announce port p =
    say (info_line "order-service listening" (("port", Value.text port) ∷ []))
      (record p { listener = announced })

-- `ListenAndServe`: it is called, it opens its listener, and it returns an error.
pub call_listen : Process → Process
call_listen p = record p { listener = unless_shut (is_shut p.main) opening }

pub listen : Process → Process
listen p = record p { listener = unless_shut (is_shut p.main) listening }

pub break : Error → Process → Process
break e p = record p { listener = broken e }

-- `logger.Error("server failed", ...)`, and `os.Exit(1)`.
pub report_failure : Error → Process → Process
report_failure e p = say (error_line "server failed" e) (record p { listener = reported })

pub abort : Process → Process
abort p = record p { listener = aborted; ended = some 1 }

-- `<-quit`
pub interrupt : Process → Process
interrupt p = record p { main = signalled }

-- `logger.Info("shutdown signal received")`
pub note_signal : Process → Process
note_signal p = say (info_line "shutdown signal received" []) (record p { main = noted })

-- `context.WithTimeout(context.Background(), cfg.ShutdownTimeout)`
pub arm : ℤ → Process → Process
arm timeout p = record p { main = armed; deadline = running timeout }

-- `srv.Shutdown(ctx)` is called, and returns nil or an error.
pub shut_down : Process → Process
shut_down p = record p { main = draining; listener = close p.listener }

pub drain : Process → Process
drain p = record p { main = drained }

pub overrun : Error → Process → Process
overrun e p = record p { main = overdue e }

-- `logger.Error("forced shutdown", ...)`, and `os.Exit(1)`, which runs nothing that is deferred.
pub report_forced : Error → Process → Process
report_forced e p = say (error_line "forced shutdown" e) (record p { main = giving_up })

pub force : Process → Process
force p = record p { main = forced; ended = some 1 }

-- `logger.Info("server shut down cleanly")`, the deferred `pool.Close`, and the end of main.
pub report_clean : Process → Process
report_clean p = say (info_line "server shut down cleanly" []) (record p { main = cleaned })

pub close_pool : Process → Process
close_pool p = record p { main = unpooled; pool_open = false }

pub finish : Process → Process
finish p = record p { main = returned; ended = some 0 }

-- The context is done.
abbrev pub expire : Process → Process
expire p = record p { deadline = expired }

-- A connection is accepted; it brings a request; and it is closed by its client or by `Shutdown`.
abbrev pub connect : Process → Process
connect p = record p { idle = suc p.idle }

abbrev pub ask : Process → Process
ask p = record p { idle = p.idle - 1; in_flight = suc p.in_flight }

abbrev pub disconnect : Process → Process
disconnect p = record p { idle = p.idle - 1 }

-- A request is answered: its connection stays, or is closed.
abbrev pub answer : Process → Process
answer p = record p { idle = suc p.idle; in_flight = p.in_flight - 1 }

abbrev pub answer_last : Process → Process
answer_last p = record p { in_flight = p.in_flight - 1 }

-- The next statement of main. `Shutdown` documents that it closes the listeners, then closes idle
-- connections and waits for the others to become idle; it returns the error of its context once that
-- is done, and else the one of closing the listeners, or nil.
pub data MainStep (timeout : ℤ) (p : Process) : Process → Type 0 where
  interrupts : p.main ≡ waiting → MainStep timeout p (interrupt p)
  notes : p.main ≡ signalled → MainStep timeout p (note_signal p)
  arms : p.main ≡ noted → MainStep timeout p (arm timeout p)
  shuts : p.main ≡ armed → MainStep timeout p (shut_down p)
  drains : p.main ≡ draining → p.idle ≡ 0 → p.in_flight ≡ 0 → MainStep timeout p (drain p)
  fails :
      (e : Error)
      → p.main ≡ draining
      → p.idle ≡ 0
      → p.in_flight ≡ 0
      → MainStep timeout p (overrun e p)
  overruns :
      (e : Error) → p.main ≡ draining → p.deadline ≡ expired → MainStep timeout p (overrun e p)
  reports_forced : (e : Error) → p.main ≡ overdue e → MainStep timeout p (report_forced e p)
  forces : p.main ≡ giving_up → MainStep timeout p (force p)
  reports_clean : p.main ≡ drained → MainStep timeout p (report_clean p)
  closes_pool : p.main ≡ cleaned → MainStep timeout p (close_pool p)
  finishes : p.main ≡ unpooled → MainStep timeout p (finish p)

-- The next statement of the goroutine.
pub data ListenerStep (port : String) (p : Process) : Process → Type 0 where
  announces : p.listener ≡ starting → ListenerStep port p (announce port p)
  calls : p.listener ≡ announced → ListenerStep port p (call_listen p)
  listens : p.listener ≡ opening → ListenerStep port p (listen p)
  breaks_opening : (e : Error) → p.listener ≡ opening → ListenerStep port p (break e p)
  breaks : (e : Error) → p.listener ≡ listening → ListenerStep port p (break e p)
  reports : (e : Error) → p.listener ≡ broken e → ListenerStep port p (report_failure e p)
  aborts : p.listener ≡ reported → ListenerStep port p (abort p)

-- What happens on the connections: none is accepted once the listeners are closed, but one that was
-- accepted may still bring a request. A connection that becomes idle while the server shuts down is
-- closed.
pub data NetworkStep (p : Process) : Process → Type 0 where
  connects : p.listener ≡ listening → NetworkStep p (connect p)
  asks : 0 < p.idle → NetworkStep p (ask p)
  answers : 0 < p.in_flight → is_shut p.main ≡ false → NetworkStep p (answer p)
  answers_last : 0 < p.in_flight → NetworkStep p (answer_last p)
  disconnects : 0 < p.idle → NetworkStep p (disconnect p)

-- `port` is `cfg.ServerPort`, and `timeout` is `cfg.ShutdownTimeout`.
module _ (port : String) (timeout : ℤ) where
  -- What may happen next, until the process has ended.
  pub data Step (p : Process) : Process → Type 0 where
    main_steps : {q : Process} → p.ended ≡ none → MainStep timeout p q → Step p q
    listener_steps : {q : Process} → p.ended ≡ none → ListenerStep port p q → Step p q
    network_steps : {q : Process} → p.ended ≡ none → NetworkStep p q → Step p q
    expires : p.ended ≡ none → p.deadline ≡ running timeout → Step p (expire p)

  -- So many steps.
  pub data Steps (p : Process) : ℕ → Process → Type 0 where
    here : Steps p 0 p
    next : {k : ℕ} {q r : Process} → Steps p k q → Step q r → Steps p (suc k) r
