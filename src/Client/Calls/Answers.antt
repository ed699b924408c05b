-- ===== src/Client/Calls/Answers.antt =====
-- Whether a client comes back, and with what.
use microservices_platform.Prelude.{
  ℕ, ◌≡◌, inl, inr, String, ◌<>◌, pos, negsuc, List, Option, none, some, arith,
}
use microservices_platform.Go.{Go, panicked, ◌>>=◌}
use microservices_platform.Go.Laws.{Outcome-cases, Result-cases, Returns, >>=-ok, >>=-err}
use microservices_platform.Log.{Logger}
use microservices_platform.Client.Wire.{ChargeRequest}
use microservices_platform.Client.Http.{
  Response, Transport, ResilientClient, failure_line, do_request,
}
use microservices_platform.Client.Http.Errors.{do_request-Ends, do_request-nil}
use microservices_platform.Client.Calls.{
  build, closing, user_status, verify_user_exists, read_product, get_product, read_charge,
  post_charge, charge,
}
use microservices_platform.Client.Calls.Closing.{build-Returns}

module _ {W Body : Type 0} (t : Transport W Body) (logger : Logger W) (c : ResilientClient) where
  closing-Returns :
      {A : Type 0} (f : Response Body → Go W A) (r : Response Body) (w : W)
      → Returns (f r w).0
      → Returns (closing t logger c (some r) f w).0
  unfolding closing
  closing-Returns f r w h = ground arith

  module _ {A : Type 0} (f : Response Body → Go W A)
      (reads : (r : Response Body) (w : W) → Returns (f r w).0) (method url : String)
      (headers : List (String × String)) (body : Option String) where
    abbrev asking : Go W (Option (Response Body))
    asking = do_request t logger c method url (build t logger c method url headers body)

    abbrev handling : Option (Response Body) → Go W A
    handling resp = closing t logger c resp f

    calling-Returns :
        (n : ℕ) (w : W) → c.retry_attempts ≡ pos n → Returns ((asking >>= handling) w).0
    calling-Returns n w e =
        let ends =
          do_request-Ends t logger c method url (build t logger c method url headers body) n w e
            (build-Returns t logger c method url headers body) in
        elim (Outcome-cases (asking w).0) [
          | inl (none, a) ↦ absurd (rw a at ends)
          | inl (some r, a) ↦
              rw (>>=-ok asking handling w a)
                (closing-Returns f r (asking w).1 (reads r (asking w).1))
          | inr (inl (e', h)) ↦ rw (>>=-err asking handling w h) tt
          | inr (inr (m, h)) ↦ absurd (rw h at ends)
        ]

    calling-nil :
        (n : ℕ) (w : W)
        → c.retry_attempts ≡ negsuc n
        → (asking >>= handling) w ≡ (
          panicked "runtime error: invalid memory address or nil pointer dereference",
          logger (failure_line c method url none) w,
        )
    unfolding closing
    calling-nil n w e = ground (
      arith,
      do_request-nil t logger c method url (build t logger c method url headers body) n w e,
    )

  user_status-Returns :
      (r : Response Body) (w : W) → Returns (user_status t logger c r.status_code w).0
  unfolding user_status
  user_status-Returns r w = ground arith

  read_product-Returns : (r : Response Body) (w : W) → Returns (read_product t logger c r w).0
  unfolding read_product
  read_product-Returns r w = ground arith

  read_charge-Returns : (r : Response Body) (w : W) → Returns (read_charge t logger c r w).0
  unfolding read_charge
  read_charge-Returns r w = ground arith

  charge-Returns :
      (n : ℕ) (req : ChargeRequest) (w : W)
      → c.retry_attempts ≡ pos n
      → Returns (charge t logger c req w).0
  unfolding charge post_charge
  charge-Returns n req w e = elim (Result-cases (t.encode_charge req)) [
    | inl (body, h) ↦
        rw h (calling-Returns (read_charge t logger c) read_charge-Returns _ _ _ _ n w e)
    | inr (cause, h) ↦ rw h tt
  ]

  -- If the number of retries is not negative, none of VerifyUserExists, GetProduct and Charge
  -- panics.
  pub calls-Returns :
      (n : ℕ) (text : String) (req : ChargeRequest) (w : W)
      → c.retry_attempts ≡ pos n
      → Returns (verify_user_exists t logger c text w).0
        × Returns (get_product t logger c text w).0
        × Returns (charge t logger c req w).0
  unfolding verify_user_exists get_product
  calls-Returns n text req w e = (
    calling-Returns _ user_status-Returns _ _ _ _ n w e,
    calling-Returns _ read_product-Returns _ _ _ _ n w e,
    charge-Returns n req w e,
  )

  -- If the number of retries is negative, VerifyUserExists sends nothing, logs a failure with a
  -- nil error, and panics on the nil response.
  pub verify_user_exists-panics :
      (n : ℕ) (user_id : String) (w : W)
      → c.retry_attempts ≡ negsuc n
      → verify_user_exists t logger c user_id w ≡ (
        panicked "runtime error: invalid memory address or nil pointer dereference",
        logger (failure_line c "GET" (c.base_url <> "/api/v1/users/" <> user_id) none) w,
      )
  unfolding verify_user_exists
  verify_user_exists-panics n user_id w e =
      calling-nil (λ r. user_status t logger c r.status_code) user_status-Returns _ _ _ _ n w e
