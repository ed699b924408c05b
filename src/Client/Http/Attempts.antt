-- ===== src/Client/Http/Attempts.antt =====
-- How often a call sends its request.
use microservices_platform.Prelude.{
  ℕ, zero, suc, ◌+◌, ◌≤◌, ◌≡◌, refl, ap, ◌∙◌, inl, inr, Bool-cases, String, ℤ, pos, List, ◌∷◌, ◌++◌,
  Option, none, some, replicate, replicate-append_self, arith,
}
use microservices_platform.Errors.{Error}
use microservices_platform.Go.{Go, Outcome, ok, Result, value, failure}
use microservices_platform.Log.{Logger, LogLine}
use microservices_platform.Client.Http.{
  Request, Response, Transport, ResilientClient, classify_err, is_gateway_status, gateway_error,
  failure_line, retry_line, backoff, pause, give_up, react, try_from, do_request,
}
use microservices_platform.Client.Http.Errors.{is_retryable-classify_err, pause-Ends, rounds-pos}
use microservices_platform.Client.Http.Steps.{
  again_from, paused, try_from-interrupted, try_from-react,
}

-- The requests that a world has seen leave, the last one first: only `Do` of net/http sends one.
pub record Sending {W Body : Type 0} (t : Transport W Body) (logger : Logger W) : Type 0 where
  pub sent : W → List Request
  pub sent-send : (d : ℤ) (r : Request) (w : W) → sent (t.send d r w).1 ≡ r ∷ sent w
  pub sent-wait : (d : ℤ) (w : W) → sent (t.wait d w).1 ≡ sent w
  pub sent-discard : (b : Body) (w : W) → sent (t.discard b w) ≡ sent w
  pub sent-close : (b : Body) (w : W) → sent (t.close b w) ≡ sent w
  pub sent-decode_product : (b : Body) (w : W) → sent (t.decode_product b w).1 ≡ sent w
  pub sent-decode_charge : (b : Body) (w : W) → sent (t.decode_charge b w).1 ≡ sent w
  pub sent-log : (l : LogLine) (w : W) → sent (logger l w) ≡ sent w

module _ {W Body : Type 0} (t : Transport W Body) (logger : Logger W) (o : Sending t logger) where
  -- The request has left so many times more, at least and at most, and nothing else has.
  abbrev pub Repeats : ℕ → ℕ → Request → W → W → Type 0
  Repeats least most req w w' =
      (k : ℕ) × (least ≤ k) × (k ≤ most) × (o.sent w' ≡ replicate k req ++ o.sent w)

  Repeats-once_more :
      (least most : ℕ) (req : Request) (w w₁ w' : W)
      → o.sent w₁ ≡ req ∷ o.sent w
      → Repeats least most req w₁ w'
      → Repeats (suc least) (suc most) req w w'
  Repeats-once_more least most req w w₁ w' one (k, low, high, e) = (
    suc k,
    omega arith,
    omega arith,
    e
        ∙ ap (λ (l : List Request). replicate k req ++ l) one
        ∙ replicate-append_self k req (o.sent w),
  )

  Repeats-none :
      (most : ℕ) (req : Request) (w w' : W) → o.sent w' ≡ o.sent w → Repeats 0 most req w w'
  Repeats-none most req w w' e = (0, omega arith, omega arith, e)

  module _ (c : ResilientClient) (method path : String) where
    sent-pause : (n : ℕ) (w : W) → o.sent (pause t logger c method path n w).1 ≡ o.sent w
    unfolding pause
    sent-pause zero w = refl
    sent-pause (suc n) w =
        let line = retry_line c method path (suc n) in
        let wanted = backoff c.retry_backoff (suc n) in
        ground (arith, o.sent-log line w, o.sent-wait wanted (logger line w))

    sent-give_up :
        (last : Option Error) (w : W) → o.sent (give_up t logger c method path last w).1 ≡ o.sent w
    unfolding give_up
    sent-give_up last w = ground (arith, o.sent-log (failure_line c method path last) w)

    module _ (build : Go W Request) (req : Request) (built : (w : W) → build w ≡ (ok req, w)) where
      -- What a round does once its request has left.
      react-Repeats :
          (most : ℕ) (again : Error → Go W (Option (Response Body)))
          (answer : Result (Response Body)) (w : W)
          → ((e : Error) (w : W) → Repeats 0 most req w (again e w).1)
          → Repeats 0 most req w (react t logger c method path again answer w).1
      unfolding react
      react-Repeats most again (failure e) w h =
          rw (is_retryable-classify_err e) (h (classify_err e) w)
      react-Repeats most again (value resp) w h =
          let drained = t.discard resp.body w in
          let closed = t.close resp.body drained in
          elim (Bool-cases (is_gateway_status resp.status_code)) [
            | inl busy ↦
                let (k, low, high, e) = h (gateway_error c.service_name resp.status_code) closed in
                rw busy (
                  k,
                  low,
                  high,
                  e
                      ∙ ap (λ (l : List Request). replicate k req ++ l)
                          (o.sent-close resp.body drained ∙ o.sent-discard resp.body w),
                )
            | inr passed ↦ rw passed (Repeats-none most req w w refl)
          ]

      -- A round, and what comes after it.
      round-Repeats :
          (left n : ℕ) (last : Option Error) (w : W)
          → ((e : Error) (w : W)
              → Repeats 0 left req w (again_from t logger c method path build left n e w).1)
          → (pause t logger c method path n w).0 ≡ ok tt
          → Repeats 1 (suc left) req w (try_from t logger c method path build (suc left) n last w).1
      round-Repeats left n last w next p =
          let v = paused t logger c method path build n w in
          let answered = t.send c.timeout req v in
          let again = again_from t logger c method path build left n in
          let reached =
            try_from-react t logger c method path build left n last w p
              (ap (λ (x : Outcome Request × W). x.0) (built v))
            ∙ ap
                (λ (u : W).
                  let a = t.send c.timeout req u in react t logger c method path again a.0 a.1)
                (ap (λ (x : Outcome Request × W). x.1) (built v)) in
          rw reached (
            Repeats-once_more 0 left req w answered.1 _
              (o.sent-send c.timeout req v ∙ ap (λ (l : List Request). req ∷ l) (sent-pause n w))
              (react-Repeats left again answered.0 answered.1 next))

      try_from-Repeats :
          (left n : ℕ) (last : Option Error) (w : W)
          → Repeats 0 left req w (try_from t logger c method path build left n last w).1
      try_from-Repeats zero n last w =
          unfold try_from in Repeats-none 0 req w _ (sent-give_up last w)
      try_from-Repeats (suc left) n last w = elim (pause-Ends t logger c method path build n w) [
        | inr (e, p, stopped) ↦
            rw (try_from-interrupted t logger c method path build left n last w p)
              (Repeats-none (suc left) req w _ (sent-pause n w))
        | inl p ↦
            let (k, low, high, e) =
              round-Repeats left n last w (λ e' w'. try_from-Repeats left (n + 1) (some e') w') p in
            (k, omega arith, high, e)
      ]

      -- With a number of retries n that is not negative and a request that can be built, Do sends
      -- that request at least once and at most n + 1 times, and nothing else. What was sent is
      -- read off the world by an observer that each send extends by its request and that no other
      -- step changes.
      pub do_request-Repeats :
          (n : ℕ) (w : W)
          → c.retry_attempts ≡ pos n
          → Repeats 1 (suc n) req w (do_request t logger c method path build w).1
      unfolding do_request
      do_request-Repeats n w e = rw (rounds-pos e) (
          round-Repeats n 0 none w (λ e' w'. try_from-Repeats n 1 (some e') w')
            (unfold pause in refl))
