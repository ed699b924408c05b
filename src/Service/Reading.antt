-- ===== src/Service/Reading.antt =====
-- `GetOrder` of the service: the repository's answer, with its error for a missing order replaced.
use microservices_platform.Prelude.{◌≡◌, true, false, String, arith}
use microservices_platform.Errors.{
  Error, sentinel, ServiceError, service, stored_order_not_found, is,
}
use microservices_platform.Go.{ok, err, panicked}
use microservices_platform.Uuid.{Uuid}
use microservices_platform.Models.{Order}
use microservices_platform.Service.{OrderService, get_order}

module _ {W : Type 0} (s : OrderService W) (id : Uuid) (w : W) where
  pub get_order-ok : {o : Order} → (s.repo.get_by_id id w).0 ≡ ok o → (get_order s id w).0 ≡ ok o
  unfolding get_order
  get_order-ok h = ground arith

  pub get_order-missing :
      {e : Error}
      → (s.repo.get_by_id id w).0 ≡ err e
      → is e stored_order_not_found ≡ true
      → (get_order s id w).0 ≡ err (sentinel (service ServiceError.order_not_found))
  unfolding get_order
  get_order-missing h k = ground arith

  pub get_order-err :
      {e : Error}
      → (s.repo.get_by_id id w).0 ≡ err e
      → is e stored_order_not_found ≡ false
      → (get_order s id w).0 ≡ err e
  unfolding get_order
  get_order-err h k = ground arith

  pub get_order-panicked :
      {m : String} → (s.repo.get_by_id id w).0 ≡ panicked m → (get_order s id w).0 ≡ panicked m
  unfolding get_order
  get_order-panicked h = ground arith
