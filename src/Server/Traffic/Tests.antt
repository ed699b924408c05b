-- ===== src/Server/Traffic/Tests.antt =====
-- The requests, the waits and the bodies of an order over a scripted network.
use microservices_platform.Prelude.{ℕ, arith, refl, pos, List, []}
use microservices_platform.Go.{value}
use microservices_platform.Server.{order_service}
use microservices_platform.Client.Calls.Sends.{Sends}
use microservices_platform.Client.Calls.Pauses.{Pauses}
use microservices_platform.Client.Http.Bodies.{Leaves}
use microservices_platform.Server.Traffic.{
  Beside, create_order-Sends, create_order-Pauses, create_order-Leaves,
}
use microservices_platform.Handlers
use microservices_platform.Handlers.{
  reply, one_order, orders, reply_to_placed, reply_to_found, reply_to_listed,
}
use microservices_platform.Fixtures.{two_mice}
use microservices_platform.Fixtures.Net.{
  network, net_logger, network-Sending, network-Opening, network-Waiting, net_uuids, net_shelf,
  local_config, flaky,
}

-- The repository of this network answers without it.
shelf-Beside-sent : Beside net_uuids net_shelf (network-Sending.sent)
shelf-Beside-sent = record {
  seen-create = λ o w. refl;
  seen-update_status = λ id status w. refl;
  seen-new = λ w. refl;
}

shelf-Beside-waited : Beside net_uuids net_shelf (network-Waiting.waited)
shelf-Beside-waited = record {
  seen-create = λ o w. refl;
  seen-update_status = λ id status w. refl;
  seen-new = λ w. refl;
}

shelf-Beside-bodies :
    Beside {A = List ℕ × List ℕ} net_uuids net_shelf
      (λ w. (network-Opening.opened w, network-Opening.closed w))
shelf-Beside-bodies = record {
  seen-create = λ o w. refl;
  seen-update_status = λ id status w. refl;
  seen-new = λ w. refl;
}

create_order-Sends_example :
    Sends network net_logger network-Sending 9 flaky
      (Handlers.create_order
        (order_service network net_logger net_uuids net_shelf (local_config (pos 2)))
        (value two_mice)
        flaky).1
create_order-Sends_example =
    create_order-Sends network net_logger net_uuids net_shelf (local_config (pos 2)) 2 refl
      network-Sending shelf-Beside-sent two_mice flaky

create_order-Pauses_example :
    Pauses network net_logger network-Waiting 1_800_000_000 flaky
      (Handlers.create_order
        (order_service network net_logger net_uuids net_shelf (local_config (pos 2)))
        (value two_mice)
        flaky).1
create_order-Pauses_example =
    create_order-Pauses network net_logger net_uuids net_shelf (local_config (pos 2)) 2 refl
      200_000_000 refl (omega arith) (omega arith) network-Waiting shelf-Beside-waited two_mice
      flaky

create_order-Leaves_example :
    Leaves network net_logger network-Opening [] flaky
      (Handlers.create_order
        (order_service network net_logger net_uuids net_shelf (local_config (pos 2)))
        (value two_mice)
        flaky).1
create_order-Leaves_example =
    create_order-Leaves network net_logger net_uuids net_shelf (local_config (pos 2))
      network-Opening shelf-Beside-bodies two_mice flaky
