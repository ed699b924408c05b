-- ===== src/Client/Http/Bodies.antt =====
-- The bodies of the responses: each that a call does not hand on is closed.
use microservices_platform.Prelude.{
  ℕ, zero, suc, ◌+◌, ◌≡◌, refl, sym, ap, subst, ◌∙◌, inl, inr, Bool-cases, String, ℤ, List, [], ◌∷◌,
  ◌++◌, append_assoc, Option, none, some, arith,
}
use microservices_platform.Errors.{Error}
use microservices_platform.Go.{Go, Outcome, ok, err, panicked, Result, value, failure}
use microservices_platform.Go.Laws.{Outcome-cases, Returns}
use microservices_platform.Log.{Logger, LogLine}
use microservices_platform.Client.Http.{
  Request, Response, Transport, ResilientClient, classify_err, is_gateway_status, gateway_error,
  retry_line, backoff, rounds, pause, give_up, react, try_from, do_request,
}
use microservices_platform.Client.Http.Errors.{is_retryable-classify_err, pause-Ends}
use microservices_platform.Client.Http.Steps.{
  again_from, paused, try_from-interrupted, try_from-unbuilt, try_from-react,
}

-- The body of a response that is handed on.
abbrev pub held : {Body : Type 0} → Outcome (Option (Response Body)) → List Body
held (ok none) = []
held (ok (some resp)) = resp.body ∷ []
held (err e) = []
held (panicked m) = []

-- The body that the answer of `Do` of net/http opens.
abbrev pub opening : {Body : Type 0} → Result (Response Body) → List Body
opening (value resp) = resp.body ∷ []
opening (failure e) = []

-- The bodies that a world has seen opened, and the calls of `Close`, the last ones first.
pub record Opening {W Body : Type 0} (t : Transport W Body) (logger : Logger W) : Type 0 where
  pub opened : W → List Body
  pub closed : W → List Body
  pub opened-send :
      (d : ℤ) (r : Request) (w : W) → opened (t.send d r w).1 ≡ opening (t.send d r w).0 ++ opened w
  pub closed-send : (d : ℤ) (r : Request) (w : W) → closed (t.send d r w).1 ≡ closed w
  pub opened-wait : (d : ℤ) (w : W) → opened (t.wait d w).1 ≡ opened w
  pub closed-wait : (d : ℤ) (w : W) → closed (t.wait d w).1 ≡ closed w
  pub opened-discard : (b : Body) (w : W) → opened (t.discard b w) ≡ opened w
  pub closed-discard : (b : Body) (w : W) → closed (t.discard b w) ≡ closed w
  pub opened-close : (b : Body) (w : W) → opened (t.close b w) ≡ opened w
  pub closed-close : (b : Body) (w : W) → closed (t.close b w) ≡ b ∷ closed w
  pub opened-decode_product : (b : Body) (w : W) → opened (t.decode_product b w).1 ≡ opened w
  pub closed-decode_product : (b : Body) (w : W) → closed (t.decode_product b w).1 ≡ closed w
  pub opened-decode_charge : (b : Body) (w : W) → opened (t.decode_charge b w).1 ≡ opened w
  pub closed-decode_charge : (b : Body) (w : W) → closed (t.decode_charge b w).1 ≡ closed w
  pub opened-log : (l : LogLine) (w : W) → opened (logger l w) ≡ opened w
  pub closed-log : (l : LogLine) (w : W) → closed (logger l w) ≡ closed w

module _ {W Body : Type 0} (t : Transport W Body) (logger : Logger W) (o : Opening t logger) where
  -- From `w` to `w'` the same bodies were opened and closed, in one order, but for those of `hs`,
  -- which were opened last and are still open.
  abbrev pub Leaves : List Body → W → W → Type 0
  Leaves hs w w' =
      (ds : List Body) × (o.opened w' ≡ hs ++ (ds ++ o.opened w)) × (o.closed w' ≡ ds ++ o.closed w)

  Leaves-unchanged :
      (w w' : W) → o.opened w' ≡ o.opened w → o.closed w' ≡ o.closed w → Leaves [] w w'
  Leaves-unchanged w w' p q = ([], p, q)

  -- Nothing left open, and then some.
  pub Leaves-trans : (hs : List Body) (w v w' : W) → Leaves [] w v → Leaves hs v w' → Leaves hs w w'
  Leaves-trans hs w v w' (ds, p, q) (es, p', q') = (
    es ++ ds,
    p'
        ∙ ap (λ (l : List Body). hs ++ l)
            (ap (λ (l : List Body). es ++ l) p ∙ sym (append_assoc es ds (o.opened w))),
    q' ∙ ap (λ (l : List Body). es ++ l) q ∙ sym (append_assoc es ds (o.closed w)),
  )

  -- A body that is closed at last.
  pub Leaves-close : (b : Body) (w v : W) → Leaves (b ∷ []) w v → Leaves [] w (t.close b v)
  Leaves-close b w v (ds, p, q) =
      (b ∷ ds, o.opened-close b v ∙ p, o.closed-close b v ∙ ap (λ (l : List Body). b ∷ l) q)

  Leaves-discard :
      (hs : List Body) (b : Body) (w v : W) → Leaves hs w v → Leaves hs w (t.discard b v)
  Leaves-discard hs b w v (ds, p, q) = (ds, o.opened-discard b v ∙ p, o.closed-discard b v ∙ q)

  Leaves-send :
      (d : ℤ) (req : Request) (w v : W)
      → Leaves [] w v
      → Leaves (opening (t.send d req v).0) w (t.send d req v).1
  Leaves-send d req w v (ds, p, q) = (
    ds,
    o.opened-send d req v ∙ ap (λ (l : List Body). opening (t.send d req v).0 ++ l) p,
    o.closed-send d req v ∙ q,
  )

  module _ (c : ResilientClient) (method path : String) where
    Leaves-pause : (n : ℕ) (w : W) → Leaves [] w (pause t logger c method path n w).1
    unfolding pause
    Leaves-pause zero w = Leaves-unchanged w w refl refl
    Leaves-pause (suc n) w =
        let line = retry_line c method path (suc n) in
        let wanted = backoff c.retry_backoff (suc n) in
        (
          [],
          ground (arith, o.opened-log line w, o.opened-wait wanted (logger line w)),
          ground (arith, o.closed-log line w, o.closed-wait wanted (logger line w)),
        )

    Leaves-give_up :
        (last : Option Error) (w : W)
        → Leaves
            (held (give_up t logger c method path last w).0)
            w
            (give_up t logger c method path last w).1
    unfolding give_up
    Leaves-give_up none w = ([], o.opened-log _ w, o.closed-log _ w)
    Leaves-give_up (some e) w = ([], o.opened-log _ w, o.closed-log _ w)

    -- What a round does once it has an answer, which may have opened a body.
    Leaves-react :
        (again : Error → Go W (Option (Response Body))) (answer : Result (Response Body)) (w v : W)
        → Leaves (opening answer) w v
        → ((e : Error) (v : W) → Leaves (held (again e v).0) v (again e v).1)
        → let r = react t logger c method path again answer v in Leaves (held r.0) w r.1
    unfolding react
    Leaves-react again (failure e) w v l h = rw (is_retryable-classify_err e) (
        Leaves-trans (held (again (classify_err e) v).0) w v (again (classify_err e) v).1 l
          (h (classify_err e) v))
    Leaves-react again (value resp) w v l h =
        let u = t.close resp.body (t.discard resp.body v) in
        let e = gateway_error c.service_name resp.status_code in
        elim (Bool-cases (is_gateway_status resp.status_code)) [
          | inl busy ↦ rw busy (
              Leaves-trans (held (again e u).0) w u (again e u).1
                (Leaves-close resp.body w (t.discard resp.body v)
                  (Leaves-discard (resp.body ∷ []) resp.body w v l))
                (h e u))
          | inr passed ↦ rw passed l
        ]

    module _ (build : Go W Request) (kept : (w : W) → (build w).1 ≡ w)
        (built : (w : W) → Returns (build w).0) where
      try_from-Leaves :
          (left n : ℕ) (last : Option Error) (w : W)
          → let r = try_from t logger c method path build left n last w in Leaves (held r.0) w r.1
      try_from-Leaves zero n last w = unfold try_from in Leaves-give_up last w
      try_from-Leaves (suc left) n last w =
          let v = paused t logger c method path build n w in
          elim (pause-Ends t logger c method path build n w) [
            | inr (e, p, stopped) ↦
                rw (try_from-interrupted t logger c method path build left n last w p)
                  (Leaves-pause n w)
            | inl p ↦ elim (Outcome-cases (build v).0) [
              | inl (req, b) ↦ rw (try_from-react t logger c method path build left n last w p b) (
                  Leaves-react (again_from t logger c method path build left n) _ w _
                    (Leaves-send c.timeout req w (build v).1
                      (subst (Leaves [] w) (sym (kept v)) (Leaves-pause n w)))
                    (λ e' v'. try_from-Leaves left (n + 1) (some e') v'))
              | inr (inl (e, b)) ↦
                  rw (try_from-unbuilt t logger c method path build left n last w p b)
                    (subst (Leaves [] w) (sym (kept v)) (Leaves-pause n w))
              | inr (inr (m, b)) ↦ absurd (subst Returns b (built v))
            ]
          ]

      -- With a request builder that does not panic and leaves the world alone, every response body
      -- that Do has opened it has closed once, but for that of the response that it returns, which
      -- is still open. Bodies are counted by an observer that a send with a response and a close
      -- extend and that no other step changes.
      pub do_request-Leaves :
          (w : W) → let r = do_request t logger c method path build w in Leaves (held r.0) w r.1
      unfolding do_request
      do_request-Leaves w = try_from-Leaves (rounds c.retry_attempts) 0 none w
