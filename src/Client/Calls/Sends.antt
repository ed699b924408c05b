-- ===== src/Client/Calls/Sends.antt =====
-- How many requests the clients send.
use microservices_platform.Prelude.{
  ℕ, zero, suc, ◌≤◌, ◌≡◌, refl, ◌∙◌, inl, inr, String, pos, List, [], ◌++◌, length, replicate,
  Option, Option-cases, none, some, arith,
}
use microservices_platform.Errors.{Error}
use microservices_platform.Go.{Go, ok, err, ◌>>=◌}
use microservices_platform.Go.Laws.{Result-cases}
use microservices_platform.Log.{Logger}
use microservices_platform.Client.Wire.{ChargeRequest}
use microservices_platform.Client.Http.{
  Request, Response, Transport, ResilientClient, pause, do_request,
}
use microservices_platform.Client.Http.Errors.{rounds-pos}
use microservices_platform.Client.Http.Steps.{try_from-unbuilt}
use microservices_platform.Client.Http.Attempts.{Sending, do_request-Repeats}
use microservices_platform.Client.Calls.Observing.{seen-calling}
use microservices_platform.Client.Calls.{
  build, closing, user_status, verify_user_exists, read_product, get_product, read_charge,
  post_charge, charge,
}

length-replicate : (k : ℕ) (r : Request) → length (replicate k r) ≡ k
length-replicate zero r = refl
length-replicate (suc k) r = omega (arith, length-replicate k r)

module _ {W Body : Type 0} (t : Transport W Body) (logger : Logger W) (c : ResilientClient) where
  pub build-accepted :
      (method url : String) (headers : List (String × String)) (body : Option String) (w : W)
      → t.reject method url ≡ none
      → build t logger c method url headers body w
        ≡ (ok (record { method = method; url = url; headers = headers; body = body }), w)
  unfolding build
  build-accepted method url headers body w e = ground arith

module _ {W Body : Type 0} (t : Transport W Body) (logger : Logger W) (o : Sending t logger) where
  -- At most so many requests have left.
  abbrev pub Sends : ℕ → W → W → Type 0
  Sends most w w' = (l : List Request) × (length l ≤ most) × (o.sent w' ≡ l ++ o.sent w)

  Sends-none : (most : ℕ) (w w' : W) → o.sent w' ≡ o.sent w → Sends most w w'
  Sends-none most w w' e = ([], omega arith, e)

  module _ (c : ResilientClient) (n : ℕ) (retries : c.retry_attempts ≡ pos n) where
    build-refused :
        (method url : String) (headers : List (String × String)) (body : Option String) (w : W)
        {e : Error}
        → t.reject method url ≡ some e
        → build t logger c method url headers body w ≡ (err e, w)
    unfolding build
    build-refused method url headers body w e = ground arith

    -- A request that cannot be built is not sent.
    do_request-refused :
        (method url : String) (headers : List (String × String)) (body : Option String) (w : W)
        {e : Error}
        → t.reject method url ≡ some e
        → (do_request t logger c method url (build t logger c method url headers body) w).1 ≡ w
    unfolding do_request
    do_request-refused method url headers body w {e} h =
        let made = build t logger c method url headers body in
        let refused = build-refused method url headers body w h in
        let first : pause t logger c method url 0 w ≡ (ok tt, w) = unfold pause in refl in
        rw (rounds-pos retries) (
          ground
            (arith, first, refused, try_from-unbuilt t logger c method url made n 0 none w {e = e}))

    do_request-Sends :
        (method url : String) (headers : List (String × String)) (body : Option String) (w : W)
        → Sends
            (suc n)
            w
            (do_request t logger c method url (build t logger c method url headers body) w).1
    do_request-Sends method url headers body w = elim (Option-cases (t.reject method url)) [
      | inl accepted ↦
          let request : Request = record {
            method = method;
            url = url;
            headers = headers;
            body = body;
          } in
          let (k, low, high, e) =
            do_request-Repeats t logger o c method url (build t logger c method url headers body)
              request (λ w'. build-accepted t logger c method url headers body w' accepted) n w
              retries in
          (replicate k request, omega (arith, length-replicate k request), e)
      | inr (e, refused) ↦
          rw (do_request-refused method url headers body w refused) (Sends-none (suc n) w w refl)
    ]

    calling-Sends :
        {A : Type 0} (f : Response Body → Go W A)
        → ((r : Response Body) (w : W) → o.sent (f r w).1 ≡ o.sent w)
        → (method url : String) (headers : List (String × String)) (body : Option String) (w : W)
        → Sends
            (suc n)
            w
            ((do_request t logger c method url (build t logger c method url headers body)
                >>= λ resp. closing t logger c resp f)
              w).1
    calling-Sends f reads method url headers body w =
        let call = do_request t logger c method url (build t logger c method url headers body) in
        let (l, few, e) = do_request-Sends method url headers body w in
        (l, few, seen-calling t logger c o.sent o.sent-close f reads call w ∙ e)

    pub verify_user_exists-Sends :
        (user_id : String) (w : W) → Sends (suc n) w (verify_user_exists t logger c user_id w).1
    unfolding verify_user_exists user_status
    verify_user_exists-Sends user_id w =
        calling-Sends (λ r. user_status t logger c r.status_code) (λ r v. ground arith) _ _ _ _ w

    pub get_product-Sends :
        (product_id : String) (w : W) → Sends (suc n) w (get_product t logger c product_id w).1
    unfolding get_product read_product
    get_product-Sends product_id w =
        calling-Sends (read_product t logger c)
          (λ r v. ground (arith, o.sent-decode_product r.body v)) _ _ _ _ w

    pub charge-Sends : (req : ChargeRequest) (w : W) → Sends (suc n) w (charge t logger c req w).1
    unfolding charge post_charge read_charge
    charge-Sends req w = elim (Result-cases (t.encode_charge req)) [
      | inl (body, e) ↦ rw e (
          calling-Sends (read_charge t logger c)
            (λ r v. ground (arith, o.sent-decode_charge r.body v)) _ _ _ _ w)
      | inr (e, h) ↦ rw h (Sends-none (suc n) w w refl)
    ]
