-- ===== src/Server/Posting/Tests.antt =====
-- Requests through the whole chain, over a scripted network.
use microservices_platform.Prelude.{◌≡◌, refl, ◌⊎◌, pos, negsuc, String, none}
use microservices_platform.Go.{ok, panicked, value}
use microservices_platform.Client.Http.{failure_line}
use microservices_platform.Handlers.{Reply}
use microservices_platform.Handlers.Placing.{
  ForeignErrors, IsCreated, IsDeclined, IsRefused, IsUnsaved,
}
use microservices_platform.Middleware.{Inbound, Clock, Recover}
use microservices_platform.Middleware.Serving.{begun, handled, Recovering, Completed, Recovered}
use microservices_platform.Server.{order_service, resilient_client}
use microservices_platform.Server.Routes.{
  post_order, get_list, handle, serve_route, serve_route-Answered,
}
use microservices_platform.Server.Posting.{post, post-Completed, post-Recovered}
use microservices_platform.Fixtures.{two_mice}
use microservices_platform.Fixtures.Net.{
  Net, network, net_logger, net_uuids, net_shelf, local_config, flaky,
}

-- No time passes.
abbrev still : Clock Net
still = record { now = λ w. (0, w); since = λ t w. (pos 0, w); milliseconds = λ d. d }

abbrev recover : Recover Net
recover message (c, w) = (record c { status = 500 }, w)

recover-Recovering : Recovering recover
recover-Recovering = record { status_lem = λ message c w e. refl; header_lem = λ message c w. refl }

-- A request with an identifier of its own.
abbrev posted : Inbound
posted = record { method = "POST"; path = "/api/v1/orders"; request_id = "req-1" }

abbrev listed : Inbound
listed = record { method = "GET"; path = "/api/v1/orders"; request_id = "" }

serve_route-Answered_example :
    let s = order_service network net_logger net_uuids net_shelf (local_config (pos 2)) in
    let here = handle s still.now (λ d w. (none, w)) (get_list "11") in
    let r =
      serve_route s still.now
        (λ d w. (none, w))
        recover
        still
        net_logger
        (get_list "11")
        listed
        flaky in
    (r.0 ≡ ok tt)
    × (((reply : Reply) × ((handled still net_uuids listed here flaky).0 ≡ ok reply)
          × Completed still net_uuids listed here flaky recover net_logger reply r.1)
        ⊎ ((message : String) × ((handled still net_uuids listed here flaky).0 ≡ panicked message)
            × Recovered still net_uuids listed here flaky recover net_logger message r.1))
serve_route-Answered_example =
    serve_route-Answered
      (order_service network net_logger net_uuids net_shelf (local_config (pos 2))) still.now
      (λ d w. (none, w)) recover still net_logger (get_list "11") listed flaky recover-Recovering

net-ForeignErrors :
    ForeignErrors (order_service network net_logger net_uuids net_shelf (local_config (pos 2)))
net-ForeignErrors = record { of_create = λ order w e k h. cc }

post-Completed_example :
    let cfg = local_config (pos 2) in
    let posting =
      post network net_logger net_uuids net_shelf cfg still.now
        (λ d w. (none, w))
        recover
        still
        two_mice
        posted
        flaky in
    (reply : Reply) × ((IsCreated reply ⊎ IsDeclined reply) ⊎ (IsRefused reply ⊎ IsUnsaved reply))
    × (posting.0 ≡ ok tt)
    × Completed still net_uuids posted
        (handle
          (order_service network net_logger net_uuids net_shelf cfg)
          still.now
          (λ d w. (none, w))
          (post_order (value two_mice)))
        flaky
        recover
        net_logger
        reply
        posting.1
post-Completed_example =
    post-Completed network net_logger net_uuids net_shelf (local_config (pos 2)) still.now
      (λ d w. (none, w)) recover still 2 refl (λ o w. tt) (λ id status w. tt) net-ForeignErrors
      two_mice posted flaky

post-Recovered_example :
    let cfg = local_config (negsuc 0) in
    post network net_logger net_uuids net_shelf cfg still.now
      (λ d w. (none, w))
      recover
      still
      two_mice
      posted
      flaky
    ≡ (
      ok tt,
      (
        record (begun "req-1") { status = 500 },
        net_logger
            (failure_line
              (resilient_client cfg "http://localhost:8081" "user-service")
              "GET"
              "http://localhost:8081/api/v1/users/11"
              none)
            flaky,
      ),
    )
post-Recovered_example =
    post-Recovered network net_logger net_uuids net_shelf (local_config (negsuc 0)) still.now
      (λ d w. (none, w)) recover still 0 two_mice 2 posted flaky refl refl
