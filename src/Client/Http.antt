-- ===== src/Client/Http.antt =====
-- internal/client/http_client.go: calls with a timeout and retries.
pub mod Steps
pub mod Errors
pub mod Attempts
pub mod Bodies
pub mod Doubling
pub mod Waits
use microservices_platform.Prelude.{
  ℕ, zero, suc, ◌+◌, ◌-◌, ◌^◌, String, ◌<>◌, decimal, Bool, ◌||◌, ◌==◌, ℤ, pos, negsuc, List, [],
  ◌∷◌, Option, none, some, if◌then◌else◌,
}
use microservices_platform.Int64.{wrap64, mul64}
use microservices_platform.Errors.{
  Error, sentinel, wrapped, client, ClientError, text, is, times_out,
}
use microservices_platform.Go.{Go, Result, value, failure, pure, throw, run, effect, ◌>>=◌, ◌>>◌}
use microservices_platform.Log.{Logger, LogLine, Level, Value}
use microservices_platform.Client.Wire.{ProductInfo, ChargeRequest, ChargeResult}

-- An `*http.Request`.
pub record Request : Type 0 where
  pub method : String
  pub url : String
  pub headers : List (String × String)
  pub body : Option String

-- An `*http.Response`, over a handle for its open body.
pub record Response (Body : Type 0) : Type 0 where
  pub status_code : ℕ
  pub body : Body

-- What the clients use of net/http, encoding/json, time and the request's context.
pub record Transport (W Body : Type 0) : Type 0 where
  -- The error of `http.NewRequestWithContext` for a method and a URL, if it has one.
  pub reject : String → String → Option Error
  -- `(*http.Client).Do` under a timeout.
  pub send : ℤ → Request → W → Result (Response Body) × W
  -- The `select` on `time.After` and `ctx.Done()`: nothing, or `ctx.Err()`.
  pub wait : ℤ → W → Option Error × W
  -- `io.Copy(io.Discard, body)` and `body.Close()`.
  pub discard : Body → W → W
  pub close : Body → W → W
  -- `json.NewDecoder(body).Decode`, which reads from the body, and `json.Marshal`.
  pub decode_product : Body → W → Result ProductInfo × W
  pub decode_charge : Body → W → Result ChargeResult × W
  pub encode_charge : ChargeRequest → Result String

-- `ResilientClient`, without its logger.
pub record ResilientClient : Type 0 where
  pub timeout : ℤ
  pub retry_attempts : ℤ
  pub retry_backoff : ℤ
  pub base_url : String
  pub service_name : String

-- `classifyErr`
unfoldable pub classify_err : Error → Error
classify_err e =
    if times_out e
    then wrapped "" (": " <> text e) (sentinel (client ClientError.downstream_timeout))
    else wrapped "" (": " <> text e) (sentinel (client ClientError.downstream_unavailable))

-- `isRetryable`
unfoldable pub is_retryable : Error → Bool
is_retryable e =
    is e (client ClientError.downstream_unavailable) || is e (client ClientError.downstream_timeout)

-- 502, 503 and 504.
abbrev pub is_gateway_status : ℕ → Bool
is_gateway_status status = status == 502 || (status == 503 || status == 504)

-- The wait before an attempt: `retryBackoff * time.Duration(1<<uint(attempt-1))`.
unfoldable pub backoff : ℤ → ℕ → ℤ
backoff base attempt = mul64 base (wrap64 (pos (2 ^ (attempt - 1))))

-- The rounds of `for attempt := 0; attempt <= retryAttempts; attempt++`.
unfoldable pub rounds : ℤ → ℕ
rounds (pos n) = suc n
rounds (negsuc n) = 0

-- The error of a response with such a status.
abbrev pub gateway_error : String → ℕ → Error
gateway_error service_name status =
    wrapped "" (": status " <> decimal status <> " from " <> service_name)
      (sentinel (client ClientError.downstream_unavailable))

abbrev pub retry_line : ResilientClient → String → String → ℕ → LogLine
retry_line c method path attempt = record {
  level = Level.warn;
  message = "retrying downstream call";
  attrs =
      ("service", Value.text c.service_name)
      ∷ ("method", Value.text method)
      ∷ ("path", Value.text path)
      ∷ ("attempt", Value.int (pos attempt))
      ∷ ("backoff", Value.duration (backoff c.retry_backoff attempt))
      ∷ [];
}

abbrev pub failure_line : ResilientClient → String → String → Option Error → LogLine
failure_line c method path last = record {
  level = Level.error;
  message = "downstream call failed after retries";
  attrs =
      ("service", Value.text c.service_name)
      ∷ ("method", Value.text method)
      ∷ ("path", Value.text path)
      ∷ ("error", elim last [ none ↦ Value.null | some e ↦ Value.text (text e) ])
      ∷ [];
}

module _ {W Body : Type 0} (t : Transport W Body) (logger : Logger W) (c : ResilientClient) where
  -- What a round does first when it is not the first: a log line, and the wait.
  unfoldable pub pause : String → String → ℕ → Go W (Unit {0})
  pause method path zero = pure tt
  pause method path (suc n) = do
    effect (logger (retry_line c method path (suc n)))
    interrupted ← run (t.wait (backoff c.retry_backoff (suc n)))
    elim interrupted [ none ↦ pure tt | some e ↦ throw e ]

  -- The end of `Do` after the loop. With no error it returns a nil response and no error.
  unfoldable pub give_up : String → String → Option Error → Go W (Option (Response Body))
  give_up method path last = do
    effect (logger (failure_line c method path last))
    elim last [ none ↦ pure none | some e ↦ throw e ]

  -- The end of a round: what the loop does with the answer of `httpClient.Do`. `again` is the next
  -- round, with a new `lastErr`.
  unfoldable pub react :
      String
      → String
      → (Error → Go W (Option (Response Body)))
      → Result (Response Body)
      → Go W (Option (Response Body))
  react method path again (failure e) =
      if is_retryable (classify_err e)
      then again (classify_err e)
      else give_up method path (some (classify_err e))
  react method path again (value resp) =
      if is_gateway_status resp.status_code
      then (do
        effect (t.discard resp.body)
        effect (t.close resp.body)
        again (gateway_error c.service_name resp.status_code))
      else pure (some resp)

  -- The loop of `Do`, on the rounds left, the attempt and `lastErr`.
  unfoldable pub try_from :
      String → String → Go W Request → ℕ → ℕ → Option Error → Go W (Option (Response Body))
  try_from method path build zero n last = give_up method path last
  try_from method path build (suc left) n last = do
    pause method path n
    req ← build
    answer ← run (t.send c.timeout req)
    react method path (λ e. try_from method path build left (n + 1) (some e)) answer

  -- `Do`
  unfoldable pub do_request : String → String → Go W Request → Go W (Option (Response Body))
  do_request method path build = try_from method path build (rounds c.retry_attempts) 0 none
