-- ===== src/Client/Calls/Pauses.antt =====
-- How long the clients wait between their attempts.
use microservices_platform.Prelude.{
  ℕ, ◌-◌, ◌*◌, ◌^◌, ◌≤◌, ◌<◌, ◌≡◌, refl, ap, ◌∙◌, inl, inr, String, pos, List, [], ◌++◌, map,
  Option, arith,
}
use microservices_platform.Go.{Go, ◌>>=◌}
use microservices_platform.Go.Laws.{Result-cases}
use microservices_platform.Log.{Logger}
use microservices_platform.Client.Wire.{ChargeRequest}
use microservices_platform.Client.Http.{Response, Transport, ResilientClient, do_request}
use microservices_platform.Client.Http.Doubling.{doubling, sum}
use microservices_platform.Client.Http.Waits.{Waiting, do_request-Waits}
use microservices_platform.Client.Calls.Closing.{build-kept, build-Returns}
use microservices_platform.Client.Calls.Observing.{seen-calling}
use microservices_platform.Client.Calls.{
  build, closing, user_status, verify_user_exists, read_product, get_product, read_charge,
  post_charge, charge,
}

module _ {W Body : Type 0} (t : Transport W Body) (logger : Logger W) (o : Waiting t logger) where
  -- Waits have been asked for that take no longer than this together.
  abbrev pub Pauses : ℕ → W → W → Type 0
  Pauses most w w' = (l : List ℕ) × (sum l ≤ most) × (o.waited w' ≡ map pos l ++ o.waited w)

  module _ (c : ResilientClient) (n base : ℕ) (retries : c.retry_attempts ≡ pos n)
      (waits : c.retry_backoff ≡ pos base) (one : 1 ≤ base) (fits : base * 2 ^ n < 2 ^ 63) where
    calling-Pauses :
        {A : Type 0} (f : Response Body → Go W A)
        → ((r : Response Body) (w : W) → o.waited (f r w).1 ≡ o.waited w)
        → (method url : String) (headers : List (String × String)) (body : Option String) (w : W)
        → Pauses
            (base * 2 ^ n - base)
            w
            ((do_request t logger c method url (build t logger c method url headers body)
                >>= λ resp. closing t logger c resp f)
              w).1
    calling-Pauses f reads method url headers body w =
        let made = build t logger c method url headers body in
        let call = do_request t logger c method url made in
        let (k, few, e, less) =
          do_request-Waits t logger o c method url made
            (λ v. ap o.waited (build-kept t logger c method url headers body v))
            (build-Returns t logger c method url headers body) n base w retries waits one fits in
        (
          doubling base k,
          omega arith,
          seen-calling t logger c o.waited o.waited-close f reads call w ∙ e,
        )

    pub verify_user_exists-Pauses :
        (user_id : String) (w : W)
        → Pauses (base * 2 ^ n - base) w (verify_user_exists t logger c user_id w).1
    unfolding verify_user_exists user_status
    verify_user_exists-Pauses user_id w =
        calling-Pauses (λ r. user_status t logger c r.status_code) (λ r v. ground arith) _ _ _ _ w

    pub get_product-Pauses :
        (product_id : String) (w : W)
        → Pauses (base * 2 ^ n - base) w (get_product t logger c product_id w).1
    unfolding get_product read_product
    get_product-Pauses product_id w =
        calling-Pauses (read_product t logger c)
          (λ r v. ground (arith, o.waited-decode_product r.body v)) _ _ _ _ w

    pub charge-Pauses :
        (req : ChargeRequest) (w : W) → Pauses (base * 2 ^ n - base) w (charge t logger c req w).1
    unfolding charge post_charge read_charge
    charge-Pauses req w = elim (Result-cases (t.encode_charge req)) [
      | inl (body, e) ↦ rw e (
          calling-Pauses (read_charge t logger c)
            (λ r v. ground (arith, o.waited-decode_charge r.body v)) _ _ _ _ w)
      | inr (e, h) ↦ rw h ([], omega arith, refl)
    ]
