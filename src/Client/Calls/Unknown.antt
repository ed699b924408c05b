-- ===== src/Client/Calls/Unknown.antt =====
-- What the answers of the siblings mean: who is unknown, and who is known.
use microservices_platform.Prelude.{
  ℕ, ◌≡◌, ◌↔◌, refl, sym, ap, subst, ◌∙◌, inl, inr, ◌⊎◌, String, ◌<>◌, Bool-cases, true, false,
  ◌==◌, ℤ, pos, [], Option, none, some, arith,
}
use microservices_platform.Errors.{Error, client, ClientError, is, address}
use microservices_platform.Errors.Laws.{is-apart}
use microservices_platform.Go.{Go, Outcome, ok, err, failure, ◌>>=◌}
use microservices_platform.Go.Laws.{Outcome-cases, Result-cases, >>=-ok, >>=-err}
use microservices_platform.Log.{Logger}
use microservices_platform.Client.Http.{
  Response, Transport, ResilientClient, is_retryable, do_request,
}
use microservices_platform.Client.Http.Errors.{do_request-Ends}
use microservices_platform.Client.Calls.{
  build, closing, user_status, verify_user_exists, read_product, get_product,
}
use microservices_platform.Client.Calls.Closing.{build-Returns}

-- The call failed with an error that wraps this variable of internal/client.
abbrev pub Fails : {A : Type 0} → ClientError → Outcome A → Type 0
Fails k r = (e : Error) × (r ≡ err e) × (is e (client k) ≡ true)

-- The variables that say that something does not exist.
abbrev IsAbsence : ClientError → Type 0
IsAbsence k = (k ≡ ClientError.user_not_found) ⊎ (k ≡ ClientError.product_not_found)

absence-apart :
    (k : ClientError)
    → IsAbsence k
    → ((address (client ClientError.downstream_unavailable) == address (client k)) ≡ false)
      × ((address (client ClientError.downstream_timeout) == address (client k)) ≡ false)
absence-apart k (inl e) = rw e (refl, refl)
absence-apart k (inr e) = rw e (refl, refl)

is_retryable-apart :
    (e : Error) (k : ClientError) → IsAbsence k → is_retryable e ≡ true → is e (client k) ≡ false
unfolding is_retryable
is_retryable-apart e k absence h =
    let (from_unavailable, from_timeout) = absence-apart k absence in
    elim (Bool-cases (is e (client ClientError.downstream_unavailable))) [
      | inl yes_it_is ↦ is-apart e _ _ from_unavailable yes_it_is
      | inr no_it_is_not ↦
          is-apart e (client ClientError.downstream_timeout) _ from_timeout (ground arith)
    ]

-- The errors of net/http, encoding/json and of a context are not of internal/client.
pub record Unrelated {W Body : Type 0} (t : Transport W Body) : Type 0 where
  pub of_wait :
      (d : ℤ) (w : W) (e : Error) (k : ClientError)
      → (t.wait d w).0 ≡ some e
      → is e (client k) ≡ false
  pub of_reject :
      (method url : String) (e : Error) (k : ClientError)
      → t.reject method url ≡ some e
      → is e (client k) ≡ false
  pub of_decode :
      (b : Body) (w : W) (e : Error) (k : ClientError)
      → (t.decode_product b w).0 ≡ failure e
      → is e (client k) ≡ false

module _ {W Body : Type 0} (t : Transport W Body) (logger : Logger W) (c : ResilientClient) where
  -- A GET of this URL, and its final answer.
  abbrev asking : String → Go W (Option (Response Body))
  asking url = do_request t logger c "GET" url (build t logger c "GET" url [] none)

  abbrev pub Answers : String → ℕ → W → Type 0
  Answers url status w =
      (r : Response Body) × ((asking url w).0 ≡ ok (some r)) × (r.status_code ≡ status)

  closing-outcome :
      {A : Type 0} (f : Response Body → Go W A) (r : Response Body) (w : W)
      → (closing t logger c (some r) f w).0 ≡ (f r w).0
  unfolding closing
  closing-outcome f r w = ground arith

  module _ (u : Unrelated t) (n : ℕ) (retries : c.retry_attempts ≡ pos n) where
    asking-err :
        (url : String) (w : W) {e : Error} (k : ClientError)
        → IsAbsence k
        → (asking url w).0 ≡ err e
        → is e (client k) ≡ false
    unfolding build
    asking-err url w {e} k absence h =
        let ends =
          do_request-Ends t logger c "GET" url (build t logger c "GET" url [] none) n w retries
            (build-Returns t logger c "GET" url [] none) in
        elim (rw h at ends) [
          | inl again ↦ is_retryable-apart e k absence again
          | inr (inl (d, at, over)) ↦ u.of_wait d at e k over
          | inr (inr (at, bad)) ↦ u.of_reject "GET" url e k (ground arith)
        ]

    -- An answer decides how the call ends; without one it ends with the error of `Do`.
    calling-cases :
        {A : Type 0} (f : Response Body → Go W A) (url : String) (w : W)
        → let out = ((asking url >>= λ resp. closing t logger c resp f) w).0 in
          ((r : Response Body) × ((asking url w).0 ≡ ok (some r))
            × (out ≡ (f r (asking url w).1).0))
          ⊎ ((e : Error) × ((asking url w).0 ≡ err e) × (out ≡ err e))
    calling-cases f url w =
        let handling = λ (resp : Option (Response Body)). closing t logger c resp f in
        let ends =
          do_request-Ends t logger c "GET" url (build t logger c "GET" url [] none) n w retries
            (build-Returns t logger c "GET" url [] none) in
        elim (Outcome-cases (asking url w).0) [
          | inl (none, a) ↦ absurd (rw a at ends)
          | inl (some r, a) ↦ inl (
            r,
            a,
            ap (λ (x : Outcome _ × W). x.0) (>>=-ok (asking url) handling w a)
                ∙ closing-outcome f r (asking url w).1,
          )
          | inr (inl (e, h)) ↦
              inr (e, h, ap (λ (x : Outcome _ × W). x.0) (>>=-err (asking url) handling w h))
          | inr (inr (m, h)) ↦ absurd (rw h at ends)
        ]

    -- An end that no error of `Do` is, and that one status calls for, comes of that answer.
    calling_iff :
        {A : Type 0} (f : Response Body → Go W A) (url : String) (w : W) (status : ℕ)
        (Q : Outcome A → Type 0)
        → ((e : Error) → (asking url w).0 ≡ err e → Q (err e) → ⊥)
        → ((r : Response Body) (w : W) → Q (f r w).0 → r.status_code ≡ status)
        → ((r : Response Body) (w : W) → r.status_code ≡ status → Q (f r w).0)
        → Q ((asking url >>= λ resp. closing t logger c resp f) w).0 ↔ Answers url status w
    calling_iff f url w status Q never only always = elim (calling-cases f url w) [
      | inl (r, a, same) ↦ (
        (λ q. (r, a, only r (asking url w).1 (subst Q same q))),
        (λ (r', a', at). subst Q (sym same) (always r (asking url w).1 (ground arith))),
      )
      | inr (e, bad, same) ↦
          ((λ q. absurd (never e bad (subst Q same q))), (λ (r', a', at). absurd (ground arith)))
    ]

    asking-present :
        {A : Type 0} (url : String) (w : W) (k : ClientError)
        → IsAbsence k
        → (e : Error) → (asking url w).0 ≡ err e
        → Fails {A = A} k (err e)
        → ⊥
    asking-present url w k absence e bad (e', same, known) =
        let other = asking-err url w k absence bad in ground arith

    user_status-Fails :
        (status : ℕ) (w : W) {e : Error}
        → (user_status t logger c status w).0 ≡ err e
        → is e (client ClientError.user_not_found) ≡ true
        → status ≡ 404
    unfolding user_status is
    user_status-Fails status w h known = ground arith

    user_status-absent :
        (status : ℕ) (w : W)
        → status ≡ 404
        → Fails ClientError.user_not_found (user_status t logger c status w).0
    unfolding user_status is
    user_status-absent status w h = rw h (_, refl, refl)

    user_status-ok_iff :
        (status : ℕ) (w : W) → ((user_status t logger c status w).0 ≡ ok tt) ↔ (status ≡ 200)
    unfolding user_status
    user_status-ok_iff status w = ((λ h. ground arith), (λ h. ground arith))

    read_product-Fails :
        (r : Response Body) (w : W) {e : Error}
        → (read_product t logger c r w).0 ≡ err e
        → is e (client ClientError.product_not_found) ≡ true
        → r.status_code ≡ 404
    unfolding read_product is
    read_product-Fails r w h known = elim (Result-cases (t.decode_product r.body w).0) [
      | inl (p, d) ↦ ground arith
      | inr (e, d) ↦ ground (arith, u.of_decode r.body w e ClientError.product_not_found d)
    ]

    read_product-absent :
        (r : Response Body) (w : W)
        → r.status_code ≡ 404
        → Fails ClientError.product_not_found (read_product t logger c r w).0
    unfolding read_product is
    read_product-absent r w h = rw h (_, refl, refl)

    -- With a number of retries that is not negative, VerifyUserExists fails with ErrUserNotFound
    -- exactly when the final answer to its GET has status 404, and succeeds exactly when it has
    -- status 200; GetProduct fails with ErrProductNotFound exactly when the final answer to its
    -- GET has status 404. Assumes that the errors of net/http, of encoding/json and of a context
    -- are not variables of internal/client (Unrelated).
    pub known_iff :
        (id : String) (w : W)
        → let user_url = c.base_url <> "/api/v1/users/" <> id in
          let product_url = c.base_url <> "/api/v1/products/" <> id in
          (Fails ClientError.user_not_found (verify_user_exists t logger c id w).0
            ↔ Answers user_url 404 w)
          × (((verify_user_exists t logger c id w).0 ≡ ok tt) ↔ Answers user_url 200 w)
          × (Fails ClientError.product_not_found (get_product t logger c id w).0
              ↔ Answers product_url 404 w)
    unfolding verify_user_exists get_product
    known_iff id w = (
      calling_iff (λ r. user_status t logger c r.status_code) _ w 404
          (Fails ClientError.user_not_found)
          (asking-present _ w ClientError.user_not_found (inl refl))
          (λ r w (e, h, known). user_status-Fails r.status_code w h known)
          (λ r w. user_status-absent r.status_code w),
      calling_iff (λ r. user_status t logger c r.status_code) _ w 200 (λ out. out ≡ ok tt)
          (λ e bad h. cc) (λ r w. (user_status-ok_iff r.status_code w).0)
          (λ r w. (user_status-ok_iff r.status_code w).1),
      calling_iff (read_product t logger c) _ w 404 (Fails ClientError.product_not_found)
          (asking-present _ w ClientError.product_not_found (inr refl))
          (λ r w (e, h, known). read_product-Fails r w h known) (λ r w. read_product-absent r w),
    )
