-- ===== src/Client/Http/Errors.antt =====
-- How a call with retries ends: its errors, and the responses that it lets through.
use microservices_platform.Prelude.{
  ℕ, zero, suc, ◌+◌, ◌*◌, ◌^◌, ◌<◌, ◌≤◌, ◌≡◌, refl, ap, subst, ◌∙◌, ◌⊎◌, inl, inr, String, true,
  false, Bool-cases, Option-cases, ℤ, pos, negsuc, pos-mul, sub-suc_one, Option, none, some, arith,
}
use native.Mathlib.Nat.{pow-suc}
use microservices_platform.Int64.{mul64}
use microservices_platform.Int64.Laws.{wrap64_of_IsInt64}
use microservices_platform.Errors.{Error, is}
use microservices_platform.Go.{Go, Outcome, ok, err, panicked, Result, value, failure}
use microservices_platform.Go.Laws.{Outcome-cases, Returns}
use microservices_platform.Log.{Logger}
use microservices_platform.Client.Http.Steps.{
  again_from, paused, try_from-interrupted, try_from-unbuilt, try_from-react,
}
use microservices_platform.Client.Http.{
  Request, Response, Transport, ResilientClient, classify_err, is_retryable, is_gateway_status,
  gateway_error, failure_line, retry_line, backoff, rounds, pause, give_up, react, try_from,
  do_request,
}

-- Every error of net/http is classified as one that is retried, so the loop of Do never stops at
-- its break.
pub is_retryable-classify_err : (e : Error) → is_retryable (classify_err e) ≡ true
unfolding is_retryable classify_err is
is_retryable-classify_err e = ground arith

is_retryable-gateway_error :
    (service_name : String) (status : ℕ) → is_retryable (gateway_error service_name status) ≡ true
unfolding is_retryable is
is_retryable-gateway_error service_name status = refl

pub backoff-exact :
    (base k : ℕ)
    → 1 ≤ base
    → base * 2 ^ k < 2 ^ 63
    → backoff (pos base) (suc k) ≡ pos (base * 2 ^ k)
unfolding backoff mul64
backoff-exact base k one fits =
    rw (sub-suc_one k, wrap64_of_IsInt64 (pos (2 ^ k)) (grind arith), pos-mul base (2 ^ k))
      (wrap64_of_IsInt64 (pos (base * 2 ^ k)) (grind arith))

pub half_fits : (base k : ℕ) → base * 2 ^ suc k < 2 ^ 63 → base * 2 ^ k < 2 ^ 63
half_fits base k h = let h' = rw pow-suc at h in grind arith

-- As long as base * 2^(k+1) nanoseconds stays below 2^63 and the base is positive, the wait before
-- attempt k + 1 is base * 2^k, and the next one is twice that.
pub backoff_doubles :
    (base k : ℕ)
    → 1 ≤ base
    → base * 2 ^ suc k < 2 ^ 63
    → (backoff (pos base) (suc k) ≡ pos (base * 2 ^ k))
      × (backoff (pos base) (suc (suc k)) ≡ pos (2 * (base * 2 ^ k)))
backoff_doubles base k one fits = (
  backoff-exact base k one (half_fits base k fits),
  backoff-exact base (suc k) one fits ∙ ap pos (rw pow-suc (omega arith)),
)

pub rounds-pos : {a : ℤ} {n : ℕ} → a ≡ pos n → rounds a ≡ suc n
unfolding rounds
rounds-pos e = ap rounds e

pub rounds-negsuc : {a : ℤ} {n : ℕ} → a ≡ negsuc n → rounds a ≡ 0
unfolding rounds
rounds-negsuc e = ap rounds e

module _ {W Body : Type 0} (t : Transport W Body) (logger : Logger W) (c : ResilientClient)
    (method path : String) (build : Go W Request) where
  -- The context of the request ended during a wait.
  abbrev pub IsInterruption : Error → Type 0
  IsInterruption e = (wanted : ℤ) × (at : W) × ((t.wait wanted at).0 ≡ some e)

  -- The request could not be built.
  abbrev pub IsRejection : Error → Type 0
  IsRejection e = (at : W) × ((build at).0 ≡ err e)

  -- The ends of a call: a response whose status calls for no retry, or one of three errors.
  abbrev pub Ends : Outcome (Option (Response Body)) → Type 0
  Ends (ok none) = ⊥
  Ends (ok (some resp)) = is_gateway_status resp.status_code ≡ false
  Ends (err e) = (is_retryable e ≡ true) ⊎ (IsInterruption e ⊎ IsRejection e)
  Ends (panicked m) = ⊥

  give_up-Ends :
      (e : Error) (w : W)
      → is_retryable e ≡ true
      → Ends (give_up t logger c method path (some e) w).0
  unfolding give_up
  give_up-Ends e w h = inl h

  react-Ends :
      (again : Error → Go W (Option (Response Body))) (answer : Result (Response Body)) (w : W)
      → ((e : Error) (w : W) → is_retryable e ≡ true → Ends (again e w).0)
      → Ends (react t logger c method path again answer w).0
  unfolding react
  react-Ends again (failure e) w h =
      rw (is_retryable-classify_err e) (h (classify_err e) w (is_retryable-classify_err e))
  react-Ends again (value resp) w h = elim (Bool-cases (is_gateway_status resp.status_code)) [
    | inl busy ↦ rw busy (
        h (gateway_error c.service_name resp.status_code)
          (t.close resp.body (t.discard resp.body w))
          (is_retryable-gateway_error c.service_name resp.status_code))
    | inr passed ↦ rw passed passed
  ]

  pub pause-Ends :
      (n : ℕ) (w : W)
      → ((pause t logger c method path n w).0 ≡ ok tt)
        ⊎ ((e : Error) × ((pause t logger c method path n w).0 ≡ err e) × IsInterruption e)
  unfolding pause
  pause-Ends zero w = inl refl
  pause-Ends (suc n) w =
      let wait = t.wait (backoff c.retry_backoff (suc n)) in
      let before = logger (retry_line c method path (suc n)) w in
      elim (Option-cases (wait before).0) [
        | inl over ↦ inl (rw over)
        | inr (e, stopped) ↦ inr (e, rw stopped, (backoff c.retry_backoff (suc n), before, stopped))
      ]

  round-Ends :
      (left n : ℕ) (last : Option Error) (w : W)
      → ((w : W) → Returns (build w).0)
      → ((e : Error) (w : W)
          → is_retryable e ≡ true
          → Ends (try_from t logger c method path build left (n + 1) (some e) w).0)
      → Ends (try_from t logger c method path build (suc left) n last w).0
  round-Ends left n last w built next = elim (pause-Ends n w) [
    | inr (e, p, stopped) ↦
        rw (try_from-interrupted t logger c method path build left n last w p) (inr (inl stopped))
    | inl p ↦ elim (Outcome-cases (build (paused t logger c method path build n w)).0) [
      | inl (req, b) ↦
          rw (try_from-react t logger c method path build left n last w p b)
            (react-Ends (again_from t logger c method path build left n) _ _ next)
      | inr (inl (e, b)) ↦
          rw (try_from-unbuilt t logger c method path build left n last w p b)
            (inr (inr (paused t logger c method path build n w, b)))
      | inr (inr (m, b)) ↦ absurd (subst Returns b (built _))
    ]
  ]

  retries-Ends :
      (left n : ℕ) (e : Error) (w : W)
      → ((w : W) → Returns (build w).0)
      → is_retryable e ≡ true
      → Ends (try_from t logger c method path build left n (some e) w).0
  retries-Ends zero n e w built h = unfold try_from in give_up-Ends e w h
  retries-Ends (suc left) n e w built h =
      round-Ends left n (some e) w built (λ e' w' h'. retries-Ends left (n + 1) e' w' built h')

  -- With a number of retries that is not negative and a request builder that does not panic, Do
  -- ends with a response whose status is not 502, 503 or 504, or with an error: a retryable one,
  -- the one of the context during a wait, or the one of building the request; never with neither.
  pub do_request-Ends :
      (n : ℕ) (w : W)
      → c.retry_attempts ≡ pos n
      → ((w : W) → Returns (build w).0)
      → Ends (do_request t logger c method path build w).0
  unfolding do_request
  do_request-Ends n w e built =
      rw (rounds-pos e) (round-Ends n 0 none w built (λ e' w' h. retries-Ends n 1 e' w' built h))

  -- With a negative number of retries no request is sent: the call returns a nil response and no
  -- error.
  pub do_request-nil :
      (n : ℕ) (w : W)
      → c.retry_attempts ≡ negsuc n
      → do_request t logger c method path build w
        ≡ (ok none, logger (failure_line c method path none) w)
  unfolding do_request try_from give_up
  do_request-nil n w e = rw (rounds-negsuc e)
