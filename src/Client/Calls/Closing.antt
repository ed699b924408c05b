-- ===== src/Client/Calls/Closing.antt =====
-- No call of a sibling leaves a body open.
use microservices_platform.Prelude.{
  ◌≡◌, refl, ◌∙◌, inl, inr, String, List, [], Option, none, some, arith,
}
use microservices_platform.Go.{Go, ok, ◌>>=◌}
use microservices_platform.Go.Laws.{
  Outcome-cases, Returns, Result-cases, >>=-ok, >>=-err, >>=-panicked,
}
use microservices_platform.Log.{Logger}
use microservices_platform.Client.Wire.{ChargeRequest}
use microservices_platform.Client.Http.{Response, Transport, ResilientClient, do_request}
use microservices_platform.Client.Http.Bodies.{
  Opening, Leaves, held, do_request-Leaves, Leaves-close,
}
use microservices_platform.Client.Calls.{
  build, closing, user_status, verify_user_exists, read_product, get_product, read_charge,
  post_charge, charge,
}

module _ {W Body : Type 0} (t : Transport W Body) (logger : Logger W) (c : ResilientClient) where
  pub build-kept :
      (method url : String) (headers : List (String × String)) (body : Option String) (w : W)
      → (build t logger c method url headers body w).1 ≡ w
  unfolding build
  build-kept method url headers body w = ground arith

  pub build-Returns :
      (method url : String) (headers : List (String × String)) (body : Option String) (w : W)
      → Returns (build t logger c method url headers body w).0
  unfolding build
  build-Returns method url headers body w = ground arith

  module _ (o : Opening t logger) where
    -- A reader of responses neither opens nor closes a body, and comes back.
    pub record IsReader {A : Type 0} (f : Response Body → Go W A) : Type 0 where
      pub returns : (r : Response Body) (w : W) → Returns (f r w).0
      pub opens_none : (r : Response Body) (w : W) → o.opened (f r w).1 ≡ o.opened w
      pub closes_none : (r : Response Body) (w : W) → o.closed (f r w).1 ≡ o.closed w

    closing-world :
        {A : Type 0} (f : Response Body → Go W A) (r : Response Body) (v : W)
        → Returns (f r v).0
        → (closing t logger c (some r) f v).1 ≡ t.close r.body (f r v).1
    unfolding closing
    closing-world f r v back = ground arith

    closing-Leaves :
        {A : Type 0} (f : Response Body → Go W A)
        → IsReader f
        → (resp : Option (Response Body)) (w v : W) → Leaves t logger o (held (ok resp)) w v
        → Leaves t logger o [] w (closing t logger c resp f v).1
    closing-Leaves f reads none w v l = unfold closing in l
    closing-Leaves f reads (some r) w v (ds, p, q) = rw (closing-world f r v (reads.returns r v)) (
        Leaves-close t logger o r.body w (f r v).1
          (ds, reads.opens_none r v ∙ p, reads.closes_none r v ∙ q))

    calling-Leaves :
        {A : Type 0} (f : Response Body → Go W A)
        → IsReader f
        → (method url : String) (headers : List (String × String)) (body : Option String) (w : W)
        → Leaves t logger o [] w
            ((do_request t logger c method url (build t logger c method url headers body)
                >>= λ resp. closing t logger c resp f)
              w).1
    calling-Leaves f reads method url headers body w =
        let call = do_request t logger c method url (build t logger c method url headers body) in
        let l =
          do_request-Leaves t logger o c method url (build t logger c method url headers body)
            (build-kept method url headers body) (build-Returns method url headers body) w in
        elim (Outcome-cases (call w).0) [
          | inl (resp, e) ↦
              rw (>>=-ok call (λ resp. closing t logger c resp f) w e)
                (closing-Leaves f reads resp w (call w).1 (rw e at l))
          | inr (inl (e, h)) ↦ rw (>>=-err call (λ resp. closing t logger c resp f) w h) (rw h at l)
          | inr (inr (m, h)) ↦
              rw (>>=-panicked call (λ resp. closing t logger c resp f) w h) (rw h at l)
        ]

    user_status-IsReader : IsReader (λ r. user_status t logger c r.status_code)
    unfolding user_status
    user_status-IsReader = record {
      returns = λ r w. ground arith;
      opens_none = λ r w. ground arith;
      closes_none = λ r w. ground arith;
    }

    read_product-IsReader : IsReader (read_product t logger c)
    unfolding read_product
    read_product-IsReader = record {
      returns = λ r w. ground arith;
      opens_none = λ r w. ground (arith, o.opened-decode_product r.body w);
      closes_none = λ r w. ground (arith, o.closed-decode_product r.body w);
    }

    read_charge-IsReader : IsReader (read_charge t logger c)
    unfolding read_charge
    read_charge-IsReader = record {
      returns = λ r w. ground arith;
      opens_none = λ r w. ground (arith, o.opened-decode_charge r.body w);
      closes_none = λ r w. ground (arith, o.closed-decode_charge r.body w);
    }

    pub verify_user_exists-Leaves :
        (user_id : String) (w : W)
        → Leaves t logger o [] w (verify_user_exists t logger c user_id w).1
    unfolding verify_user_exists
    verify_user_exists-Leaves user_id w = calling-Leaves _ user_status-IsReader _ _ _ _ w

    pub get_product-Leaves :
        (product_id : String) (w : W)
        → Leaves t logger o [] w (get_product t logger c product_id w).1
    unfolding get_product
    get_product-Leaves product_id w = calling-Leaves _ read_product-IsReader _ _ _ _ w

    pub charge-Leaves :
        (req : ChargeRequest) (w : W) → Leaves t logger o [] w (charge t logger c req w).1
    unfolding charge post_charge
    charge-Leaves req w = elim (Result-cases (t.encode_charge req)) [
      | inl (body, e) ↦ rw e (calling-Leaves _ read_charge-IsReader _ _ _ _ w)
      | inr (e, h) ↦ rw h ([], refl, refl)
    ]

    -- Whatever the siblings answer and however often a call is tried, VerifyUserExists, GetProduct
    -- and Charge each close every response body that they open, once. Bodies are counted by an
    -- observer that a send with a response and a close extend and that no other step changes.
    pub calls-Leaves :
        (text : String) (req : ChargeRequest) (w : W)
        → Leaves t logger o [] w (verify_user_exists t logger c text w).1
          × Leaves t logger o [] w (get_product t logger c text w).1
          × Leaves t logger o [] w (charge t logger c req w).1
    calls-Leaves text req w =
        (verify_user_exists-Leaves text w, get_product-Leaves text w, charge-Leaves req w)
