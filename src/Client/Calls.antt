-- ===== src/Client/Calls.antt =====
-- internal/client/user_client.go, product_client.go and payment_client.go. A response that is nil
-- is dereferenced by `defer resp.Body.Close()`, which panics.
pub mod Closing
pub mod Charging
pub mod Observing
pub mod Sends
pub mod Pauses
pub mod Answers
pub mod Unknown
use microservices_platform.Prelude.{
  ℕ, String, ◌<>◌, decimal, Bool, false, not, ◌&&◌, ◌==◌, List, [], ◌∷◌, Option, none, some,
  if◌then◌else◌,
}
use microservices_platform.Errors.{Error, sentinel, wrapped, foreign, client, ClientError}
use microservices_platform.Go.{
  Go, Result, value, failure, pure, throw, panic, run, lift, attempt, rethrow, effect, ◌>>=◌, ◌>>◌,
}
use microservices_platform.Log.{Logger}
use microservices_platform.Client.Wire.{ProductInfo, ChargeRequest, ChargeResult}
use microservices_platform.Client.Http.{Request, Response, Transport, ResilientClient, do_request}

-- `fmt.Errorf("<service> returned unexpected status %d", status)`
abbrev pub unexpected : String → ℕ → Error
unexpected service status =
    foreign false (service <> " returned unexpected status " <> decimal status)

module _ {W Body : Type 0} (t : Transport W Body) (logger : Logger W) (c : ResilientClient) where
  -- `http.NewRequestWithContext`, and the headers that the caller sets.
  pub build : String → String → List (String × String) → Option String → Go W Request
  build method url headers body = elim (t.reject method url) [
    | some e ↦ throw e
    | none ↦ pure (record { method = method; url = url; headers = headers; body = body })
  ]

  -- What follows a successful `Do`: the deferred close, and the function of the response.
  pub closing : {A : Type 0} → Option (Response Body) → (Response Body → Go W A) → Go W A
  closing none f = panic "runtime error: invalid memory address or nil pointer dereference"
  closing (some resp) f = do result ← attempt (f resp); effect (t.close resp.body); lift result

  -- The `switch` on the status of user-service.
  pub user_status : ℕ → Go W (Unit {0})
  user_status status =
      if status == 200
      then pure tt
      else if status == 404
      then throw (sentinel (client ClientError.user_not_found))
      else throw (unexpected "user-service" status)

  -- `VerifyUserExists`
  pub verify_user_exists : String → Go W (Unit {0})
  verify_user_exists user_id = do
    let url = c.base_url <> "/api/v1/users/" <> user_id
    resp ← do_request t logger c "GET" url (build "GET" url [] none)
    closing resp (λ r. user_status r.status_code)

  -- The tests of `GetProduct` on the response, and the decoding.
  pub read_product : Response Body → Go W ProductInfo
  read_product r =
      if r.status_code == 404
      then throw (sentinel (client ClientError.product_not_found))
      else if not (r.status_code == 200)
      then throw (unexpected "product-service" r.status_code)
      else (do
        decoded ← run (t.decode_product r.body)
        rethrow (wrapped "decoding product-service response: " "") (lift decoded))

  -- `GetProduct`
  pub get_product : String → Go W ProductInfo
  get_product product_id = do
    let url = c.base_url <> "/api/v1/products/" <> product_id
    resp ← do_request t logger c "GET" url (build "GET" url [] none)
    closing resp read_product

  -- The test of `Charge` on the response, and the decoding.
  pub read_charge : Response Body → Go W ChargeResult
  read_charge r =
      if not (r.status_code == 200) && (not (r.status_code == 201) && not (r.status_code == 402))
      then throw (unexpected "payment-service" r.status_code)
      else (do
        decoded ← run (t.decode_charge r.body)
        rethrow (wrapped "decoding payment-service response: " "") (lift decoded))

  -- The request of `Charge`: the order is the idempotency key.
  pub charge_headers : ChargeRequest → List (String × String)
  charge_headers req = ("Content-Type", "application/json") ∷ ("Idempotency-Key", req.order_id) ∷ []

  pub charge_url : String
  charge_url = c.base_url <> "/api/v1/payments"

  -- `Charge` once the body is encoded.
  pub post_charge : ChargeRequest → String → Go W ChargeResult
  unfolding charge_url
  post_charge req body = do
    resp ←
        do_request t logger c "POST" charge_url
          (build "POST" charge_url (charge_headers req) (some body))
    closing resp read_charge

  -- `Charge`
  pub charge : ChargeRequest → Go W ChargeResult
  charge req = do body ← lift (t.encode_charge req); post_charge req body
