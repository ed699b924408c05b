-- ===== src/Middleware/Serving.antt =====
-- How the chain of handlers ends: what the response holds, and what is logged.
use microservices_platform.Prelude.{◌≡◌, ◌≢◌, refl, ◌⊎◌, inl, inr, String, ℤ, none, some, arith}
use microservices_platform.Errors.{Error}
use microservices_platform.Go.{Outcome, ok, err, panicked, Go}
use microservices_platform.Go.Laws.{Outcome-cases}
use microservices_platform.Log.{Logger}
use microservices_platform.Uuid.{Uuids}
use microservices_platform.Handlers.{Reply}
use microservices_platform.Middleware.{
  Inbound, Context, fresh, Clock, answering, choose_id, request_id, completed, structured_logging,
  Recover, recovery, serve,
}

-- What gin documents of its recovery: the response is a 500, if nothing was written before. The
-- headers that are set stay.
pub record Recovering {W : Type 0} (recover : Recover W) : Type 0 where
  pub status_lem :
      (message : String) (c : Context) (w : W)
      → c.body ≡ none
      → (recover message (c, w)).0.status ≡ 500
  pub header_lem :
      (message : String) (c : Context) (w : W) → (recover message (c, w)).0.header ≡ c.header

-- The context when the handler of the route begins, and when it has replied.
abbrev pub begun : String → Context
begun id = record fresh { key = some id; header = some id }

abbrev pub replied : String → Reply → Context
replied id reply = record (begun id) { status = reply.status; body = some reply.body }

module _ {W : Type 0} (clock : Clock W) (uuids : Uuids W) (inbound : Inbound) (h : Go W Reply)
    (w : W) where
  -- The identifier of the request, and the call of the handler of the route.
  abbrev pub id_of : String
  id_of = (choose_id uuids inbound w).0

  abbrev pub handled : Outcome Reply × W
  handled = h (clock.now (choose_id uuids inbound w).1).1

  abbrev elapsed : ℤ × W
  elapsed = clock.since (clock.now (choose_id uuids inbound w).1).0 handled.1

  module _ (recover : Recover W) (logger : Logger W) where
    -- The response to a reply: the reply under the identifier; the last thing done is its log line.
    abbrev pub Completed : Reply → Context × W → Type 0
    Completed reply (c, w') =
        (c ≡ replied id_of reply)
        × (w'
            ≡ logger (completed inbound (replied id_of reply) (clock.milliseconds elapsed.0))
                elapsed.1)

    -- The response to a panic: a 500 under the identifier; nothing is logged after the panic.
    abbrev pub Recovered : String → Context × W → Type 0
    Recovered message (c, w') =
        (c.status ≡ 500)
        × (c.header ≡ some id_of)
        × (w' ≡ (recover message (begun id_of, handled.1)).1)

    pub serve-ok :
        {reply : Reply}
        → handled.0 ≡ ok reply
        → serve recover clock logger uuids inbound h (fresh, w) ≡ (
          ok tt,
          (
            replied id_of reply,
            logger
                (completed inbound (replied id_of reply) (clock.milliseconds elapsed.0))
                elapsed.1,
          ),
        )
    unfolding serve recovery request_id structured_logging answering
    serve-ok e = ground arith

    pub serve-panicked :
        {message : String}
        → handled.0 ≡ panicked message
        → serve recover clock logger uuids inbound h (fresh, w)
          ≡ (ok tt, recover message (begun id_of, handled.1))
    unfolding serve recovery request_id structured_logging answering
    serve-panicked e = ground arith

    -- However the handler of the route ends, the response is its reply, or that of the recovery.
    pub serve-Answered :
        Recovering recover
        → ((e : Error) → handled.0 ≢ err e)
        → let s = serve recover clock logger uuids inbound h (fresh, w) in
          (s.0 ≡ ok tt)
          × (((reply : Reply) × (handled.0 ≡ ok reply) × Completed reply s.1)
              ⊎ ((message : String) × (handled.0 ≡ panicked message) × Recovered message s.1))
    serve-Answered laws fine = elim (Outcome-cases handled.0) [
      | inl (reply, e) ↦ rw (serve-ok e) (refl, inl (reply, e, (refl, refl)))
      | inr (inl (e, bad)) ↦ absurd (fine e bad)
      | inr (inr (m, bad)) ↦ rw (serve-panicked bad) (
        refl,
        inr (
          m,
          bad,
          (
            laws.status_lem m (begun id_of) handled.1 refl,
            laws.header_lem m (begun id_of) handled.1,
            refl,
          ),
        ),
      )
    ]
