-- ===== src/Client/Calls/Observing.antt =====
-- What a client does with a response, as an observer sees it that only the call itself changes.
use microservices_platform.Prelude.{◌≡◌, refl, inl, inr, Option, none, some, arith}
use microservices_platform.Go.{Go, ◌>>=◌}
use microservices_platform.Go.Laws.{Outcome-cases, >>=-ok, >>=-err, >>=-panicked}
use microservices_platform.Log.{Logger}
use microservices_platform.Client.Http.{Response, Transport, ResilientClient}
use microservices_platform.Client.Calls.{closing}

module _ {W Body S : Type 0} (t : Transport W Body) (logger : Logger W) (c : ResilientClient)
    (seen : W → S) (seen-close : (b : Body) (w : W) → seen (t.close b w) ≡ seen w) {A : Type 0}
    (f : Response Body → Go W A)
    (reads : (r : Response Body) (w : W) → seen (f r w).1 ≡ seen w) where
  seen-closing :
      (resp : Option (Response Body)) (w : W) → seen (closing t logger c resp f w).1 ≡ seen w
  unfolding closing
  seen-closing none w = refl
  seen-closing (some r) w = ground (arith, reads r w, seen-close r.body (f r w).1)

  -- Reading the response and closing its body adds nothing.
  pub seen-calling :
      (call : Go W (Option (Response Body))) (w : W)
      → seen ((call >>= λ resp. closing t logger c resp f) w).1 ≡ seen (call w).1
  seen-calling call w =
      let reading : Option (Response Body) → Go W A = λ resp. closing t logger c resp f in
      elim (Outcome-cases (call w).0) [
        | inl (resp, e) ↦ rw (>>=-ok call reading w e) (seen-closing resp (call w).1)
        | inr (inl (e, h)) ↦ rw (>>=-err call reading w h) refl
        | inr (inr (m, h)) ↦ rw (>>=-panicked call reading w h) refl
      ]
