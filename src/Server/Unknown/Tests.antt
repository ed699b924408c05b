-- ===== src/Server/Unknown/Tests.antt =====
-- A user that the network does not know.
use microservices_platform.Prelude.{◌≡◌, ◌↔◌, refl, pos}
use microservices_platform.Go.{ok, value}
use microservices_platform.Uuid.{Uuid}
use microservices_platform.Handlers.{Reply, create_order}
use microservices_platform.Handlers.Placing.{ForeignErrors}
use microservices_platform.Server.{order_service}
use microservices_platform.Server.Unknown.{SaysUnknown, UserAnswers, create_order-unknown_user_iff}
use microservices_platform.Fixtures.{two_mice, read_tally}
use microservices_platform.Fixtures.Net.{
  network, net_logger, net_uuids, net_shelf, network-Unrelated, local_config, stranger,
}

shelf-ForeignErrors :
    ForeignErrors (order_service network net_logger net_uuids net_shelf (local_config (pos 2)))
shelf-ForeignErrors = record { of_create = λ order w e k h. cc }

create_order-unknown_user_iff_example :
    let cfg = local_config (pos 2) in
    ((r : Reply) × ((create_order
          (order_service network net_logger net_uuids net_shelf cfg)
          (value two_mice)
          stranger).0
        ≡ ok r)
      × SaysUnknown r)
    ↔ (((id : Uuid) × (read_tally "11" ≡ value id))
        × UserAnswers network net_logger net_uuids net_shelf cfg "11" 404 stranger)
create_order-unknown_user_iff_example =
    create_order-unknown_user_iff network net_logger net_uuids net_shelf (local_config (pos 2)) 2
      refl network-Unrelated shelf-ForeignErrors two_mice stranger
