-- ===== src/Errors.antt =====
-- Go's error values: the package variables of order-service, `fmt.Errorf` with `%w`, and errors
-- of other packages; `errors.Is`, and the `Timeout` test of internal/client/http_client.go.
pub mod Laws
use microservices_platform.Prelude.{ℕ, Bool, true, false, String, ◌<>◌, ◌==◌}

-- internal/service/errors.go
pub data ServiceError : Type 0 where
  validation : ServiceError
  user_not_found : ServiceError
  product_not_found : ServiceError
  product_unavailable : ServiceError
  order_not_found : ServiceError
  upstream_unavailable : ServiceError
  payment_declined : ServiceError

-- The error variables of internal/client.
pub data ClientError : Type 0 where
  downstream_unavailable : ClientError
  downstream_timeout : ClientError
  user_not_found : ClientError
  product_not_found : ClientError

-- Every error variable that the code compares with, or that may reach such a comparison. The
-- last three belong to pgx and to the package context.
pub data Sentinel : Type 0 where
  service : ServiceError → Sentinel
  client : ClientError → Sentinel
  stored_order_not_found : Sentinel
  no_rows : Sentinel
  canceled : Sentinel
  deadline_exceeded : Sentinel

-- `errors.New` and `fmt.Errorf` return a new pointer each: two variables are equal exactly when
-- they are one variable, whatever their texts.
abbrev pub address : Sentinel → ℕ
address (service ServiceError.validation) = 0
address (service ServiceError.user_not_found) = 1
address (service ServiceError.product_not_found) = 2
address (service ServiceError.product_unavailable) = 3
address (service ServiceError.order_not_found) = 4
address (service ServiceError.upstream_unavailable) = 5
address (service ServiceError.payment_declined) = 6
address (client ClientError.downstream_unavailable) = 7
address (client ClientError.downstream_timeout) = 8
address (client ClientError.user_not_found) = 9
address (client ClientError.product_not_found) = 10
address stored_order_not_found = 11
address no_rows = 12
address canceled = 13
address deadline_exceeded = 14

abbrev pub message : Sentinel → String
message (service ServiceError.validation) = "validation failed"
message (service ServiceError.user_not_found) = "user not found"
message (service ServiceError.product_not_found) = "product not found"
message (service ServiceError.product_unavailable) = "product is out of stock or inactive"
message (service ServiceError.order_not_found) = "order not found"
message (service ServiceError.upstream_unavailable) = "a dependency is temporarily unavailable"
message (service ServiceError.payment_declined) = "payment was declined"
message (client ClientError.downstream_unavailable) = "downstream service unavailable"
message (client ClientError.downstream_timeout) = "downstream service timed out"
message (client ClientError.user_not_found) = "user not found"
message (client ClientError.product_not_found) = "product not found"
message stored_order_not_found = "order not found"
message no_rows = "no rows in result set"
message canceled = "context canceled"
message deadline_exceeded = "context deadline exceeded"

-- `wrapped before after e` is `fmt.Errorf("<before>%w<after>", e)`. A `foreign` error is of another
-- package and wraps none of the variables; its flag is what its method `Timeout` answers, false
-- where it has no such method.
pub data Error : Type 0 where
  sentinel : Sentinel → Error
  wrapped : String → String → Error → Error
  foreign : Bool → String → Error

-- `err.Error()`
unfoldable pub text : Error → String
text (sentinel s) = message s
text (wrapped before after e) = before <> text e <> after
text (foreign timeout t) = t

-- `errors.Is(err, target)`: walks the chain of wrapped errors.
unfoldable pub is : Error → Sentinel → Bool
is (sentinel s) target = address s == address target
is (wrapped before after e) target = is e target
is (foreign timeout t) target = false

-- `errors.As(err, &netErr) && netErr.Timeout()`. Of the variables only the deadline of a context
-- has the method; a wrapped error asks the one inside.
unfoldable pub times_out : Error → Bool
times_out (sentinel deadline_exceeded) = true
times_out (sentinel s) = false
times_out (wrapped before after e) = times_out e
times_out (foreign timeout t) = timeout
