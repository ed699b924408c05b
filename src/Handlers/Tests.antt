-- ===== src/Handlers/Tests.antt =====
-- Requests to the handlers, and their theorems at concrete data.
use microservices_platform.Prelude.{
  ◌≡◌, ◌↔◌, refl, ◌⊎◌, true, false, none, some, [], ◌∷◌, pos, ◌+ℤ◌, ◌*ℤ◌,
}
use microservices_platform.Errors.{
  Error, sentinel, foreign, wrapped, service, ServiceError, is, text,
}
use microservices_platform.Go.{ok, value, failure}
use microservices_platform.Service
use microservices_platform.Handlers.{
  Reply, reply, problem, one_order, write_service_error, reply_to_placed, reply_to_found,
  create_order, get_order,
}
use microservices_platform.Handlers.ErrorMapping.{status_of, code_of, write_service_error-cases}
use microservices_platform.Handlers.Placing.{
  IsCreated, IsDeclined, IsRefused, IsUnsaved, ForeignErrors, create_order-replies,
}
use microservices_platform.Service.Refusing.{Refuses}
use microservices_platform.Handlers.Refusing.{RepliesAs, create_order-Refuses_iff}
use microservices_platform.Int64.{add64, mul64, wrap64}
use microservices_platform.Models.{Order, confirmed, failed}
use microservices_platform.Service.Outcomes.{NoPanic}
use microservices_platform.Service.Charging.{Accepts, Declines, Charges}
use microservices_platform.Handlers.Charging.{create_order-Charges_iff}
use microservices_platform.Handlers.Reading.{Found, get_order-Found}
use microservices_platform.Fixtures.{shop, tallies-UuidLaws, stored_order, nine_mice, two_mice}

abbrev no_stock : Error
no_stock = wrapped "" ": product 111" (sentinel (service ServiceError.product_unavailable))

abbrev disk_full : Error
disk_full = foreign false "disk full"

write_service_error-cases_example :
    ((k : ServiceError) × (is disk_full (service k) ≡ true)
      × (write_service_error disk_full none
          ≡ reply (status_of k) (problem (code_of k) (text disk_full) none)))
    ⊎ (((k : ServiceError) → is disk_full (service k) ≡ false)
        × (write_service_error disk_full none
            ≡ reply 500 (problem "internal_error" (text disk_full) none)))
write_service_error-cases_example = write_service_error-cases disk_full none

-- A malformed body never reaches the service.
malformed_run :
    create_order shop (failure disk_full) 0
    ≡ (ok (reply 400 (problem "validation_error" "disk full" none)), 0)
unfolding create_order text
malformed_run = refl

shop-ForeignErrors : ForeignErrors shop
shop-ForeignErrors = record { of_create = λ order w e k h. cc }

abbrev refusal : Reply
refusal = reply 409 (problem "product_unavailable" (text no_stock) none)

create_order-replies_example :
    (IsCreated refusal ⊎ IsDeclined refusal) ⊎ (IsRefused refusal ⊎ IsUnsaved refusal)
unfolding create_order reply_to_placed write_service_error is Service.create_order Service.prepare
    Service.price_items Service.price_item
create_order-replies_example =
    create_order-replies shop shop-ForeignErrors nine_mice 0 {r = refusal} refl

create_order-Refuses_iff_example :
    ((r : Reply) × ((create_order shop (value nine_mice) 0).0 ≡ ok r)
      × RepliesAs ServiceError.product_unavailable r)
    ↔ Refuses shop nine_mice 0 ServiceError.product_unavailable
create_order-Refuses_iff_example =
    create_order-Refuses_iff shop nine_mice 0 shop-ForeignErrors ServiceError.product_unavailable

shop-NoPanic : NoPanic shop
shop-NoPanic = record { charging = λ r w. tt; updating = λ o t w. tt }

-- Two mice, paid for; identifiers and times are counts.
abbrev mice_confirmed : Order
mice_confirmed = record {
  id = 0;
  user_id = 2;
  status = confirmed;
  total_cents = pos 3998;
  currency = "USD";
  items =
      record {
        id = 2;
        product_id = 3;
        sku = "SKU-WIRELESS-MOUSE";
        quantity = pos 2;
        unit_price_cents = pos 1999;
      }
      ∷ [];
  created_at = 3;
  updated_at = 3;
}

mice_run : (create_order shop (value two_mice) 0).0 ≡ ok (reply 201 (one_order mice_confirmed))
unfolding create_order reply_to_placed Service.create_order Service.prepare Service.price_items
    Service.price_item Service.settle Service.finish Service.conclude Service.final_status
    Service.record_status Service.charge_request add64 mul64 wrap64 ◌+ℤ◌ ◌*ℤ◌
mice_run = refl

create_order-Charges_iff_example :
    (((create_order shop (value two_mice) 0).0 ≡ ok (reply 201 (one_order mice_confirmed)))
      ↔ Charges shop shop-NoPanic two_mice 0 Accepts confirmed mice_confirmed)
    × (((create_order shop (value two_mice) 0).0
          ≡ ok
              (reply 402 (problem "payment_declined" "payment was declined" (some mice_confirmed))))
        ↔ Charges shop shop-NoPanic two_mice 0 Declines failed mice_confirmed)
create_order-Charges_iff_example =
    create_order-Charges_iff shop shop-NoPanic two_mice 0 mice_confirmed

get_order-Found_example : Found (ok stored_order) (reply 200 (one_order stored_order))
unfolding get_order reply_to_found Service.get_order
get_order-Found_example =
    get_order-Found shop tallies-UuidLaws 7 0 {r = reply 200 (one_order stored_order)} (λ e k h. cc)
      refl
