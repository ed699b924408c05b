-- ===== src/Client/Tests.antt =====
-- Calls over a scripted network, and the clients' theorems at concrete data.
use microservices_platform.Prelude.{
  ℕ, ◌+◌, ◌*◌, ◌^◌, ◌≤◌, ◌≡◌, ◌++◌, map, ◌↔◌, refl, pos, [], ◌∷◌, Option, none, decimal, arith,
  ◌*ℤ◌,
}
use microservices_platform.Int64.{mul64, wrap64}
use microservices_platform.Errors.{ClientError, is, text, times_out}
use microservices_platform.Go.{Go, pure, ok}
use microservices_platform.Client.Http.{
  Request, Response, classify_err, is_retryable, backoff, rounds, pause, give_up, react, try_from,
  do_request, failure_line,
}
use microservices_platform.Client.Http.Errors.{Ends, do_request-Ends, do_request-nil}
use microservices_platform.Client.Http.Attempts.{Repeats}
use microservices_platform.Client.Http.Doubling.{doubling, sum}
use microservices_platform.Client.Http.Waits.{do_request-Waits}
use microservices_platform.Client.Http.Bodies.{Leaves}
use microservices_platform.Client.Calls.{verify_user_exists, get_product, charge}
use microservices_platform.Client.Calls.Closing.{calls-Leaves}
use microservices_platform.Client.Calls.Charging.{charge_post, charge-Repeats}
use microservices_platform.Client.Calls.Unknown.{Fails, Answers, known_iff}
use microservices_platform.Fixtures.Net.{
  Net, network, net_logger, network-Sending, network-Opening, network-Waiting, network-Unrelated,
  flaky, stranger, patient, impatient, a_charge,
}

abbrev a_get : Request
a_get = record { method = "GET"; url = "http://localhost:8083/x"; headers = []; body = none }

abbrev the_get : Go Net Request
the_get = pure a_get

abbrev call : Go Net (Option (Response ℕ))
call = do_request network net_logger patient "GET" "/x" the_get

-- The third attempt succeeds; the body of the busy answer was closed.
third_time : Net
unfolding do_request rounds try_from react pause give_up is_retryable classify_err is times_out text
    backoff mul64 wrap64 ◌*ℤ◌ decimal
third_time = (call flaky).1

third_time_sent : third_time.sent ≡ a_get ∷ a_get ∷ a_get ∷ []
unfolding third_time
third_time_sent = refl

third_time_closed : third_time.closed ≡ 1 ∷ []
unfolding third_time
third_time_closed = refl

do_request-Ends_example : Ends network net_logger patient "GET" "/x" the_get (call flaky).0
do_request-Ends_example =
    do_request-Ends network net_logger patient "GET" "/x" the_get 2 flaky refl (λ w. tt)

do_request-nil_example :
    do_request network net_logger impatient "GET" "/x" the_get flaky
    ≡ (ok none, net_logger (failure_line impatient "GET" "/x" none) flaky)
do_request-nil_example = do_request-nil network net_logger impatient "GET" "/x" the_get 0 flaky refl

do_request-Waits_example :
    (k : ℕ) × (k ≤ 2)
    × ((call flaky).1.waits ≡ map pos (doubling 200_000_000 k) ++ flaky.waits)
    × (sum (doubling 200_000_000 k) + 200_000_000 ≤ 200_000_000 * 2 ^ 2)
do_request-Waits_example =
    do_request-Waits network net_logger network-Waiting patient "GET" "/x" the_get (λ w. refl)
      (λ w. tt) 2 200_000_000 flaky refl refl (omega arith) (omega arith)

calls-Leaves_example :
    Leaves network net_logger network-Opening [] flaky
      (verify_user_exists network net_logger patient "11" flaky).1
    × Leaves network net_logger network-Opening [] flaky
        (get_product network net_logger patient "11" flaky).1
    × Leaves network net_logger network-Opening [] flaky
        (charge network net_logger patient a_charge flaky).1
calls-Leaves_example = calls-Leaves network net_logger patient network-Opening "11" a_charge flaky

charge-Repeats_example :
    Repeats network net_logger network-Sending 1 3
      (charge_post network net_logger patient network-Sending a_charge "{}")
      flaky
      (charge network net_logger patient a_charge flaky).1
charge-Repeats_example =
    charge-Repeats network net_logger patient network-Sending a_charge "{}" 2 flaky refl refl refl

known_iff_example :
    (Fails ClientError.user_not_found
        (verify_user_exists network net_logger patient "11" stranger).0
      ↔ Answers network net_logger patient "http://localhost:8083/api/v1/users/11" 404 stranger)
    × (((verify_user_exists network net_logger patient "11" stranger).0 ≡ ok tt)
        ↔ Answers network net_logger patient "http://localhost:8083/api/v1/users/11" 200 stranger)
    × (Fails ClientError.product_not_found (get_product network net_logger patient "11" stranger).0
        ↔ Answers network net_logger patient "http://localhost:8083/api/v1/products/11" 404
            stranger)
known_iff_example = known_iff network net_logger patient network-Unrelated 2 refl "11" stranger
