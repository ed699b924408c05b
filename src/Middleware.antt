-- ===== src/Middleware.antt =====
-- internal/middleware/middleware.go, and the chain of handlers that gin runs for a request.
pub mod Serving
use microservices_platform.Prelude.{
  ℕ, ◌≡◌, String, ℤ, pos, List, [], ◌∷◌, Option, none, some, str_eq, if◌then◌else◌,
}
use microservices_platform.Go.{Outcome, ok, err, panicked, Go, ◌>>=◌, ◌>>◌}
use microservices_platform.Log.{Logger, LogLine, Level, Value}
use microservices_platform.Uuid.{Uuids, Time}
use microservices_platform.Handlers.{Reply, ReplyBody}

-- What the middleware uses of an `*http.Request`. The header is empty if the request has none.
pub record Inbound : Type 0 where
  pub method : String
  pub path : String
  pub request_id : String

-- What the middleware and the handlers use of a `*gin.Context`: the key "requestId", the header
-- X-Request-Id of the response, and what was written.
pub record Context : Type 0 where
  pub key : Option String
  pub header : Option String
  pub status : ℕ
  pub body : Option ReplyBody

-- Before the first handler; gin answers 200 if nothing else is written.
abbrev pub fresh : Context
fresh = record { key = none; header = none; status = 200; body = none }

-- A `gin.HandlerFunc` with the rest of the chain, which `c.Next()` runs.
abbrev pub Handler : Type 0 → Type 0
Handler W = Go (Context × W) (Unit {0})

-- What the middleware uses of the package time: `time.Now`, `time.Since` and `Milliseconds`.
pub record Clock (W : Type 0) : Type 0 where
  pub now : W → Time × W
  pub since : Time → W → ℤ × W
  pub milliseconds : ℤ → ℤ

-- A call that knows nothing of the context.
abbrev pub outside : {W A : Type 0} → (W → A × W) → Go (Context × W) A
outside f (c, w) = let (a, w') = f w in (ok a, (c, w'))

abbrev pub edit : {W : Type 0} → (Context → Context) → Handler W
edit f (c, w) = (ok tt, (f c, w))

-- A handler of internal/handlers, whose reply `c.JSON` writes.
unfoldable pub answering : {W : Type 0} → Go W Reply → Handler W
answering h (c, w) =
    let (r, w') = h w in
    elim r [
      | ok reply ↦ (ok tt, (record c { status = reply.status; body = some reply.body }, w'))
      | err e ↦ (err e, (c, w'))
      | panicked message ↦ (panicked message, (c, w'))
    ]

-- `uuid.NewString()`
abbrev new_string : {W : Type 0} → Uuids W → W → String × W
new_string uuids w = let (id, w') = uuids.new w in (uuids.to_string id, w')

-- The identifier of a request: its own, or a new one.
abbrev pub choose_id : {W : Type 0} → Uuids W → Inbound → W → String × W
choose_id uuids inbound w =
    if str_eq inbound.request_id "" then new_string uuids w else (inbound.request_id, w)

-- `RequestID`
unfoldable pub request_id : {W : Type 0} → Uuids W → Inbound → Handler W → Handler W
request_id uuids inbound next = do
  id ← outside (choose_id uuids inbound)
  edit (λ c. record c { key = some id })
  edit (λ c. record c { header = some id })
  next

abbrev pub completed : Inbound → Context → ℤ → LogLine
completed inbound c millis = record {
  level = Level.info;
  message = "request_completed";
  attrs =
      ("method", Value.text inbound.method)
      ∷ ("path", Value.text inbound.path)
      ∷ ("status", Value.int (pos c.status))
      ∷ ("durationMs", Value.int millis)
      ∷ ("requestId", elim c.key [ none ↦ Value.null | some id ↦ Value.text id ])
      ∷ [];
}

abbrev log_in : {W : Type 0} → Logger W → (Context → LogLine) → Handler W
log_in logger line (c, w) = (ok tt, (c, logger (line c) w))

-- `StructuredLogging`
unfoldable pub structured_logging :
    {W : Type 0} → Clock W → Logger W → Inbound → Handler W → Handler W
structured_logging clock logger inbound next = do
  start ← outside clock.now
  next
  duration ← outside (clock.since start)
  log_in logger (λ c. completed inbound c (clock.milliseconds duration))

-- `gin.Recovery()`: what gin does about a panic is a parameter.
abbrev pub Recover : Type 0 → Type 0
Recover W = String → Context × W → Context × W

unfoldable pub recovery : {W : Type 0} → Recover W → Handler W → Handler W
recovery recover next s =
    let (r, s') = next s in
    elim r [
      | ok done ↦ (ok done, s')
      | err e ↦ (err e, s')
      | panicked message ↦ (ok tt, recover message s')
    ]

-- The chain of `router.Use` in cmd/server/main.go, and the handler of the route.
unfoldable pub serve :
    {W : Type 0} → Recover W → Clock W → Logger W → Uuids W → Inbound → Go W Reply → Handler W
serve recover clock logger uuids inbound h =
    recovery recover
      (request_id uuids inbound (structured_logging clock logger inbound (answering h)))
