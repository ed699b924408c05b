-- ===== src/Client/Http/Waits.antt =====
-- How long a call waits between its attempts.
use microservices_platform.Prelude.{
  ℕ, zero, suc, ◌+◌, ◌*◌, ◌^◌, ◌≤◌, ◌<◌, ◌≡◌, refl, sym, ap, subst, ◌∙◌, inl, inr, Bool-cases,
  String, ℤ, pos, List, ◌∷◌, ◌++◌, map, append_assoc, Option, none, some, arith,
}
use microservices_platform.Errors.{Error}
use microservices_platform.Go.{Go, ok, Result, value, failure}
use microservices_platform.Go.Laws.{Outcome-cases, Returns}
use microservices_platform.Log.{Logger, LogLine}
use microservices_platform.Client.Http.{
  Request, Response, Transport, ResilientClient, classify_err, is_gateway_status, gateway_error,
  failure_line, retry_line, backoff, pause, give_up, react, try_from, do_request,
}
use microservices_platform.Client.Http.Errors.{is_retryable-classify_err, pause-Ends, rounds-pos}
use microservices_platform.Client.Http.Doubling.{
  waits_from, doubling, sum, sum-doubling, waits_from-doubling, doubled_mono,
}
use microservices_platform.Client.Http.Steps.{
  again_from, paused, try_from-interrupted, try_from-unbuilt, try_from-react,
}

-- The waits that a world has seen asked for, the last one first: only the `select` of `Do` waits.
pub record Waiting {W Body : Type 0} (t : Transport W Body) (logger : Logger W) : Type 0 where
  pub waited : W → List ℤ
  pub waited-wait : (d : ℤ) (w : W) → waited (t.wait d w).1 ≡ d ∷ waited w
  pub waited-send : (d : ℤ) (r : Request) (w : W) → waited (t.send d r w).1 ≡ waited w
  pub waited-discard : (b : Body) (w : W) → waited (t.discard b w) ≡ waited w
  pub waited-close : (b : Body) (w : W) → waited (t.close b w) ≡ waited w
  pub waited-decode_product : (b : Body) (w : W) → waited (t.decode_product b w).1 ≡ waited w
  pub waited-decode_charge : (b : Body) (w : W) → waited (t.decode_charge b w).1 ≡ waited w
  pub waited-log : (l : LogLine) (w : W) → waited (logger l w) ≡ waited w

module _ {W Body : Type 0} (t : Transport W Body) (logger : Logger W) (o : Waiting t logger)
    (c : ResilientClient) (method path : String) (build : Go W Request)
    (kept : (w : W) → o.waited (build w).1 ≡ o.waited w)
    (built : (w : W) → Returns (build w).0) where
  -- Of at most so many waits from an attempt on, some have been asked for, in order.
  abbrev Waits : ℕ → ℕ → W → W → Type 0
  Waits most n w w' =
      (j : ℕ) × (j ≤ most) × (o.waited w' ≡ waits_from c.retry_backoff n j ++ o.waited w)

  waited-pause :
      (n : ℕ) (w : W)
      → o.waited (paused t logger c method path build (suc n) w)
        ≡ backoff c.retry_backoff (suc n) ∷ o.waited w
  unfolding pause
  waited-pause n w =
      let line = retry_line c method path (suc n) in
      let wanted = backoff c.retry_backoff (suc n) in
      ground (arith, o.waited-log line w, o.waited-wait wanted (logger line w))

  waited-give_up :
      (last : Option Error) (w : W)
      → o.waited (give_up t logger c method path last w).1 ≡ o.waited w
  unfolding give_up
  waited-give_up last w = ground (arith, o.waited-log (failure_line c method path last) w)

  react-Waits :
      (most n : ℕ) (again : Error → Go W (Option (Response Body))) (answer : Result (Response Body))
      (w₀ w : W)
      → o.waited w ≡ o.waited w₀
      → ((e : Error) (w : W) → Waits most n w (again e w).1)
      → Waits most n w₀ (react t logger c method path again answer w).1
  unfolding react
  react-Waits most n again (failure e) w₀ w same h =
      let (j, bound, more) = h (classify_err e) w in
      rw (is_retryable-classify_err e)
        (j, bound, more ∙ ap (λ (l : List ℤ). waits_from c.retry_backoff n j ++ l) same)
  react-Waits most n again (value resp) w₀ w same h =
      let drained = t.discard resp.body w in
      let closed = t.close resp.body drained in
      elim (Bool-cases (is_gateway_status resp.status_code)) [
        | inl busy ↦
            let (j, bound, more) = h (gateway_error c.service_name resp.status_code) closed in
            rw busy (
              j,
              bound,
              more
                  ∙ ap (λ (l : List ℤ). waits_from c.retry_backoff n j ++ l)
                      (o.waited-close resp.body drained ∙ o.waited-discard resp.body w ∙ same),
            )
        | inr passed ↦ rw passed (0, omega arith, same)
      ]

  -- A round once its pause is over.
  round-Waits :
      (left n : ℕ) (last : Option Error) (w : W)
      → ((e : Error) (w : W)
          → Waits left (suc n) w (try_from t logger c method path build left (suc n) (some e) w).1)
      → (pause t logger c method path n w).0 ≡ ok tt
      → Waits left
          (suc n)
          (paused t logger c method path build n w)
          (try_from t logger c method path build (suc left) n last w).1
  round-Waits left n last w next p =
      let v = paused t logger c method path build n w in
      let same : suc n ≡ n + 1 = omega arith in
      let again = again_from t logger c method path build left n in
      elim (Outcome-cases (build v).0) [
        | inl (req, b) ↦
            let answered = t.send c.timeout req (build v).1 in
            rw (try_from-react t logger c method path build left n last w p b) (
              react-Waits left (suc n) again answered.0 v answered.1
                (o.waited-send c.timeout req (build v).1 ∙ kept v)
                (λ e' w'.
                  subst
                    (λ m.
                      Waits left (suc n) w'
                        (try_from t logger c method path build left m (some e') w').1)
                    same (next e' w')))
        | inr (inl (e, b)) ↦
            rw (try_from-unbuilt t logger c method path build left n last w p b)
              (0, omega arith, kept v)
        | inr (inr (m, b)) ↦ absurd (subst Returns b (built v))
      ]

  try_from-Waits :
      (left n : ℕ) (last : Option Error) (w : W)
      → Waits left (suc n) w (try_from t logger c method path build left (suc n) last w).1
  try_from-Waits zero n last w = unfold try_from in (0, omega arith, waited-give_up last w)
  try_from-Waits (suc left) n last w =
      let slept = waited-pause n w in
      elim (pause-Ends t logger c method path build (suc n) w) [
        | inr (e, p, stopped) ↦
            rw (try_from-interrupted t logger c method path build left (suc n) last w p)
              (1, omega arith, slept)
        | inl p ↦
            let (j, bound, more) =
              round-Waits left (suc n) last w (λ e' w'. try_from-Waits left (suc n) (some e') w')
                p in
            (
              suc j,
              omega arith,
              more
                  ∙ ap (λ (l : List ℤ). waits_from c.retry_backoff (suc (suc n)) j ++ l) slept
                  ∙ sym (append_assoc (waits_from c.retry_backoff (suc (suc n)) j) _ (o.waited w)),
            )
      ]

  -- The first round has no pause.
  first-Waits :
      (left : ℕ) (w : W)
      → Waits left 1 w (try_from t logger c method path build (suc left) 0 none w).1
  first-Waits left w =
      let (j, bound, more) =
        round-Waits left 0 none w (λ e' w'. try_from-Waits left 0 (some e') w')
          (unfold pause in refl) in
      (j, bound, unfold pause in more)

  -- With a number of retries n, a positive base wait, base * 2^n below 2^63 nanoseconds and a
  -- request builder that does not panic and does not wait, the waits that Do asks for are base, 2
  -- * base, 4 * base and so on, in this order, at most n of them, and together shorter than base *
  -- 2^n. Waits are read off the world by an observer that each wait of the select extends by its
  -- duration and that no other step changes (Waiting).
  pub do_request-Waits :
      (n base : ℕ) (w : W)
      → c.retry_attempts ≡ pos n
      → c.retry_backoff ≡ pos base
      → 1 ≤ base
      → base * 2 ^ n < 2 ^ 63
      → (k : ℕ) × (k ≤ n)
        × (o.waited (do_request t logger c method path build w).1
            ≡ map pos (doubling base k) ++ o.waited w)
        × (sum (doubling base k) + base ≤ base * 2 ^ n)
  unfolding do_request
  do_request-Waits n base w retries waits one fits =
      let (k, bound, seen) = first-Waits n w in
      let less = doubled_mono base k n bound in
      let whole = sum-doubling base k in
      (
        k,
        bound,
        rw (rounds-pos retries) (
            seen
            ∙ ap (λ (b : ℤ). waits_from b 1 k ++ o.waited w) waits
            ∙ ap (λ (l : List ℤ). l ++ o.waited w) (waits_from-doubling base k one (omega arith))),
        omega arith,
      )
