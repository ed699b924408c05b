-- ===== src/Client/Calls/Charging.antt =====
-- What leaves for payment-service when an order is charged.
use microservices_platform.Prelude.{
  ℕ, suc, ◌≡◌, ap, ◌∙◌, String, ◌<>◌, pos, [], ◌∷◌, Option, none, some, arith,
}
use microservices_platform.Go.{Go, Outcome, ok, value}
use microservices_platform.Log.{Logger}
use microservices_platform.Client.Wire.{ChargeRequest, ChargeResult}
use microservices_platform.Client.Http.{Request, Response, Transport, ResilientClient, do_request}
use microservices_platform.Client.Http.Attempts.{Sending, Repeats, do_request-Repeats}
use microservices_platform.Client.Calls.Sends.{build-accepted}
use microservices_platform.Client.Calls.Observing.{seen-calling}
use microservices_platform.Client.Calls.{
  build, read_charge, charge_headers, charge_url, post_charge, charge,
}

module _ {W Body : Type 0} (t : Transport W Body) (logger : Logger W) (c : ResilientClient)
    (o : Sending t logger) where
  -- The request that carries an encoded charge.
  pub charge_post : ChargeRequest → String → Request
  charge_post req body = record {
    method = "POST";
    url = c.base_url <> "/api/v1/payments";
    headers = ("Content-Type", "application/json") ∷ ("Idempotency-Key", req.order_id) ∷ [];
    body = some body;
  }

  sent-read_charge : (r : Response Body) (w : W) → o.sent (read_charge t logger c r w).1 ≡ o.sent w
  unfolding read_charge
  sent-read_charge r w = ground (arith, o.sent-decode_charge r.body w)

  module _ (req : ChargeRequest) (body : String) where
    abbrev make : Go W Request
    make =
        build t logger c "POST" (charge_url t logger c) (charge_headers t logger c req) (some body)

    abbrev posting : Go W (Option (Response Body))
    posting = do_request t logger c "POST" (charge_url t logger c) make

    make_lem :
        t.reject "POST" (c.base_url <> "/api/v1/payments") ≡ none
        → (w : W) → make w ≡ (ok (charge_post req body), w)
    unfolding charge_url charge_headers charge_post
    make_lem accepted w = build-accepted t logger c _ _ _ _ w accepted

    -- Reading the answer sends nothing more.
    sent-post_charge : (w : W) → o.sent (post_charge t logger c req body w).1 ≡ o.sent (posting w).1
    unfolding post_charge
    sent-post_charge w =
        seen-calling t logger c o.sent o.sent-close (read_charge t logger c) sent-read_charge
          posting w

    charge-eq-post_charge :
        (w : W)
        → t.encode_charge req ≡ value body
        → charge t logger c req w ≡ post_charge t logger c req body w
    unfolding charge
    charge-eq-post_charge w e = rw e

    -- With a number of retries n that is not negative, a charge that can be encoded and a URL that
    -- net/http accepts, Charge sends its POST at least once and at most n + 1 times, each time the
    -- same request with the order as Idempotency-Key, and sends nothing else. What was sent is
    -- read off the world by an observer that each send extends by its request and that no other
    -- step changes.
    pub charge-Repeats :
        (n : ℕ) (w : W)
        → c.retry_attempts ≡ pos n
        → t.encode_charge req ≡ value body
        → t.reject "POST" (c.base_url <> "/api/v1/payments") ≡ none
        → Repeats t logger o 1 (suc n) (charge_post req body) w (charge t logger c req w).1
    charge-Repeats n w retries encoded accepted =
        let (k, low, high, e) =
          do_request-Repeats t logger o c "POST" (charge_url t logger c) make (charge_post req body)
            (make_lem accepted) n w retries in
        (
          k,
          low,
          high,
          ap (λ (r : Outcome ChargeResult × W). o.sent r.1) (charge-eq-post_charge w encoded)
              ∙ sent-post_charge w
              ∙ e,
        )
