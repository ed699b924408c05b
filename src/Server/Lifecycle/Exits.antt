-- ===== src/Server/Lifecycle/Exits.antt =====
-- What the exit code of the process says.
use microservices_platform.Prelude.{ℕ, ◌≡◌, ◌⊎◌, String, true, false, ℤ, some, arith}
use microservices_platform.Server.Lifecycle.{returned, forced, aborted, Process, initial, Steps}
use microservices_platform.Server.Lifecycle.Sound.{Logged, initial-IsSound, Steps-IsSound}

-- In any order of the statements of main and of the goroutine and of the requests, whenever the
-- process has ended, one of three holds: its code is 0, main has returned, "server shut down
-- cleanly" was logged, no connection is left and the pool is closed; or its code is 1, main has
-- called os.Exit, "forced shutdown" was logged and the pool is open; or its code is 1, the
-- goroutine has called os.Exit and "server failed" was logged, wherever main was. That Shutdown
-- returns nil only when no connection is left is what net/http documents (MainStep).
pub exit-Explains :
    {port : String} {timeout : ℤ} {k : ℕ} {p : Process} (code : ℕ)
    → Steps port timeout initial k p
    → p.ended ≡ some code
    → ((code ≡ 0)
        × (p.main ≡ returned)
        × Logged "server shut down cleanly" p.lines
        × (p.idle ≡ 0)
        × (p.in_flight ≡ 0)
        × (p.pool_open ≡ false))
      ⊎ (((code ≡ 1) × (p.main ≡ forced) × Logged "forced shutdown" p.lines × (p.pool_open ≡ true))
          ⊎ ((code ≡ 1) × (p.listener ≡ aborted) × Logged "server failed" p.lines))
exit-Explains {port} {timeout} {k} {p} code run at =
    let h = Steps-IsSound (initial-IsSound timeout) run in
    ground (arith, h.ended_by code at, h.clean, h.overdue_said, h.failure_said, h.quiet, h.pooled)
