-- ===== src/Server/Lifecycle/Tests.antt =====
-- A process that takes a connection with a request, is told to stop, answers it, and ends.
use microservices_platform.Prelude.{
  ℕ, suc, ◌+◌, ◌*◌, ◌≤◌, ◌≡◌, refl, ◌⊎◌, false, true, ℤ, pos, none, some, arith,
}
use microservices_platform.Server.Lifecycle.{
  returned, forced, aborted, Process, initial, announce, call_listen, listen, interrupt,
  note_signal, arm, shut_down, drain, report_clean, close_pool, finish, connect, ask, answer_last,
  interrupts, notes, arms, shuts, drains, reports_clean, closes_pool, finishes, announces, calls,
  listens, connects, asks, answers_last, main_steps, listener_steps, network_steps, Steps, here,
  next,
}
use microservices_platform.Server.Lifecycle.Sound.{Logged}
use microservices_platform.Server.Lifecycle.Exits.{exit-Explains}
use microservices_platform.Server.Lifecycle.Shutdown.{OwnStep, shutdown-Exits}

abbrev ten_seconds : ℤ
ten_seconds = pos 10000000000

abbrev serving : Process
serving = ask (connect (listen (call_listen (announce "8082" initial))))

abbrev shutting : Process
shutting = shut_down (arm ten_seconds (note_signal (interrupt serving)))

abbrev over : Process
over = finish (close_pool (report_clean (drain (answer_last shutting))))

serving_run : Steps "8082" ten_seconds initial 5 serving
unfolding initial announce call_listen listen
serving_run =
    let up =
      next
        (next (next here (listener_steps refl (announces refl))) (listener_steps refl (calls refl)))
        (listener_steps refl (listens refl)) in
    next (next up (network_steps refl (connects refl))) (network_steps refl (asks (omega arith)))

shutting_run : Steps "8082" ten_seconds initial 9 shutting
unfolding initial announce call_listen listen interrupt note_signal arm shut_down
shutting_run =
    let told = next serving_run (main_steps refl (interrupts refl)) in
    let ready = next (next told (main_steps refl (notes refl))) (main_steps refl (arms refl)) in
    next ready (main_steps refl (shuts refl))

ending_run :
    {j : ℕ} {p : Process}
    → Steps "8082" ten_seconds p j shutting
    → Steps "8082" ten_seconds p (suc (suc (suc (suc (suc j))))) over
unfolding initial announce call_listen listen interrupt note_signal arm shut_down drain report_clean
    close_pool finish
ending_run run =
    let answered = next run (network_steps refl (answers_last (omega arith))) in
    let quiet = next answered (main_steps refl (drains refl refl refl)) in
    let told = next quiet (main_steps refl (reports_clean refl)) in
    next (next told (main_steps refl (closes_pool refl))) (main_steps refl (finishes refl))

exit-Explains_example :
    ((◌≡◌ {A = ℕ} 0 0)
      × (over.main ≡ returned)
      × Logged "server shut down cleanly" over.lines
      × (over.idle ≡ 0)
      × (over.in_flight ≡ 0)
      × (over.pool_open ≡ false))
    ⊎ (((◌≡◌ {A = ℕ} 0 1)
          × (over.main ≡ forced)
          × Logged "forced shutdown" over.lines
          × (over.pool_open ≡ true))
        ⊎ ((◌≡◌ {A = ℕ} 0 1) × (over.listener ≡ aborted) × Logged "server failed" over.lines))
unfolding finish
exit-Explains_example = exit-Explains 0 (ending_run shutting_run) refl

shutdown-Exits_example :
    (5 ≤ 2 * shutting.idle + shutting.in_flight + 10)
    × (over.idle + over.in_flight ≤ shutting.idle + shutting.in_flight)
    × (((code : ℕ) × (over.ended ≡ some code)) ⊎ ((over.ended ≡ none) × OwnStep ten_seconds over))
unfolding shut_down
shutdown-Exits_example = shutdown-Exits shutting_run refl (ending_run here)
