-- ===== src/Client/Http/Steps.antt =====
-- One round of the loop of `Do`, by how far it comes.
use microservices_platform.Prelude.{ℕ, suc, ◌+◌, ◌≡◌, String, Option, some, arith}
use microservices_platform.Errors.{Error}
use microservices_platform.Go.{Go, ok, err}
use microservices_platform.Log.{Logger}
use microservices_platform.Client.Http.{
  Request, Response, Transport, ResilientClient, pause, react, try_from,
}

module _ {W Body : Type 0} (t : Transport W Body) (logger : Logger W) (c : ResilientClient)
    (method path : String) (build : Go W Request) where
  -- The next round.
  abbrev pub again_from : ℕ → ℕ → Error → Go W (Option (Response Body))
  again_from left n e = try_from t logger c method path build left (n + 1) (some e)

  abbrev pub paused : ℕ → W → W
  paused n w = (pause t logger c method path n w).1

  module _ (left n : ℕ) (last : Option Error) (w : W) where
    pub try_from-interrupted :
        {e : Error}
        → (pause t logger c method path n w).0 ≡ err e
        → try_from t logger c method path build (suc left) n last w ≡ (err e, paused n w)
    unfolding try_from
    try_from-interrupted p = ground arith

    pub try_from-unbuilt :
        {e : Error}
        → (pause t logger c method path n w).0 ≡ ok tt
        → (build (paused n w)).0 ≡ err e
        → try_from t logger c method path build (suc left) n last w
          ≡ (err e, (build (paused n w)).1)
    unfolding try_from
    try_from-unbuilt p b = ground arith

    pub try_from-react :
        {req : Request}
        → (pause t logger c method path n w).0 ≡ ok tt
        → (build (paused n w)).0 ≡ ok req
        → let answered = t.send c.timeout req (build (paused n w)).1 in
          try_from t logger c method path build (suc left) n last w
          ≡ react t logger c method path (again_from left n) answered.0 answered.1
    unfolding try_from
    try_from-react p b = ground arith
