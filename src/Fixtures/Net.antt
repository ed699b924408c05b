-- ===== src/Fixtures/Net.antt =====
-- A network that answers from a script, and remembers what was sent, opened and closed.
use microservices_platform.Prelude.{ℕ, refl, false, pos, negsuc, List, [], ◌∷◌, ◌++◌, none}
use microservices_platform.Errors.{foreign}
use microservices_platform.Go.{Result, value, failure}
use microservices_platform.Log.{Logger, LogLine}
use microservices_platform.Client.Wire.{ChargeRequest}
use microservices_platform.Client.Http.{Request, Response, Transport, ResilientClient}
use microservices_platform.Client.Http.Attempts.{Sending}
use microservices_platform.Client.Http.Bodies.{Opening, opening}
use microservices_platform.Client.Http.Waits.{Waiting}
use microservices_platform.Uuid.{Uuids}
use microservices_platform.Config.{Config}
use microservices_platform.Service.{OrderRepository}
use microservices_platform.Go.{ok, err}
use microservices_platform.Errors.{sentinel, stored_order_not_found}
use microservices_platform.Prelude.{ℤ}
use microservices_platform.Fixtures.{mouse, tally_of, read_tally}
use microservices_platform.Client.Calls.Unknown.{Unrelated}

-- A body is a number.
pub record Net : Type 0 where
  pub script : List (Result (Response ℕ))
  pub sent : List Request
  pub opened : List ℕ
  pub closed : List ℕ
  pub lines : List LogLine
  pub waits : List ℤ

abbrev pub refused : Result (Response ℕ)
refused = failure (foreign false "connection refused")

-- The answer is the next of the script; after its end every connection is refused.
abbrev pub next_answer : List (Result (Response ℕ)) → Result (Response ℕ)
next_answer [] = refused
next_answer (a ∷ more) = a

abbrev pub later_answers : List (Result (Response ℕ)) → List (Result (Response ℕ))
later_answers [] = []
later_answers (a ∷ more) = more

abbrev pub network : Transport Net ℕ
network = record {
  reject = λ method url. none;
  send = λ d r w. (
    next_answer w.script,
    record w {
      script = later_answers w.script;
      sent = r ∷ w.sent;
      opened = opening (next_answer w.script) ++ w.opened;
    },
  );
  wait = λ d w. (none, record w { waits = d ∷ w.waits });
  discard = λ b w. w;
  close = λ b w. record w { closed = b ∷ w.closed };
  decode_product = λ b w. (value mouse, w);
  decode_charge =
      λ b w. (value (record { transaction_id = "txn_1"; status = "SUCCEEDED"; reason = "" }), w);
  encode_charge = λ r. value "{}";
}

abbrev pub net_logger : Logger Net
net_logger line w = record w { lines = line ∷ w.lines }

abbrev pub network-Sending : Sending network net_logger
network-Sending = record {
  sent = λ w. w.sent;
  sent-send = λ d r w. refl;
  sent-wait = λ d w. refl;
  sent-discard = λ b w. refl;
  sent-close = λ b w. refl;
  sent-decode_product = λ b w. refl;
  sent-decode_charge = λ b w. refl;
  sent-log = λ l w. refl;
}

abbrev pub network-Opening : Opening network net_logger
network-Opening = record {
  opened = λ w. w.opened;
  closed = λ w. w.closed;
  opened-send = λ d r w. refl;
  closed-send = λ d r w. refl;
  opened-wait = λ d w. refl;
  closed-wait = λ d w. refl;
  opened-discard = λ b w. refl;
  closed-discard = λ b w. refl;
  opened-close = λ b w. refl;
  closed-close = λ b w. refl;
  opened-decode_product = λ b w. refl;
  closed-decode_product = λ b w. refl;
  opened-decode_charge = λ b w. refl;
  closed-decode_charge = λ b w. refl;
  opened-log = λ l w. refl;
  closed-log = λ l w. refl;
}

abbrev pub network-Waiting : Waiting network net_logger
network-Waiting = record {
  waited = λ w. w.waits;
  waited-wait = λ d w. refl;
  waited-send = λ d r w. refl;
  waited-discard = λ b w. refl;
  waited-close = λ b w. refl;
  waited-decode_product = λ b w. refl;
  waited-decode_charge = λ b w. refl;
  waited-log = λ l w. refl;
}

-- A busy answer, then a refusal, then a good answer.
abbrev pub flaky : Net
flaky = record {
  script =
      value (record { status_code = 503; body = 1 })
      ∷ refused
      ∷ value (record { status_code = 200; body = 2 })
      ∷ [];
  sent = [];
  opened = [];
  closed = [];
  lines = [];
  waits = [];
}

-- The client of the default configuration.
abbrev pub patient : ResilientClient
patient = record {
  timeout = pos 3_000_000_000;
  retry_attempts = pos 2;
  retry_backoff = pos 200_000_000;
  base_url = "http://localhost:8083";
  service_name = "payment-service";
}

-- One whose number of retries was set to -1.
abbrev pub impatient : ResilientClient
impatient = record patient { retry_attempts = negsuc 0 }

abbrev pub a_charge : ChargeRequest
a_charge = record {
  order_id = "order-7";
  user_id = "user-2";
  amount_cents = pos 3998;
  currency = "USD";
}

-- Every new identifier is 1.
abbrev pub net_uuids : Uuids Net
net_uuids = record { parse = read_tally; to_string = tally_of; new = λ w. (1, w) }

abbrev pub net_shelf : OrderRepository Net
net_shelf = record {
  create = λ o w. (ok o, w);
  get_by_id = λ id w. (err (sentinel stored_order_not_found), w);
  list_by_user = λ id w. (ok [], w);
  update_status = λ id status w. (ok tt, w);
}

abbrev pub local_config : ℤ → Config
local_config attempts = record {
  server_port = "8082";
  log_level = "info";
  environment = "development";
  shutdown_timeout = pos 10_000_000_000;
  db_host = "localhost";
  db_port = "5432";
  db_name = "shopstream_orders";
  db_user = "shopstream";
  db_password = "";
  db_max_open_conns = pos 10;
  db_max_idle_conns = pos 5;
  db_connect_timeout = pos 5_000_000_000;
  user_service_url = "http://localhost:8081";
  product_service_url = "http://localhost:8000";
  payment_service_url = "http://localhost:8083";
  http_client_timeout = pos 3_000_000_000;
  http_retry_attempts = attempts;
  http_retry_backoff = pos 200_000_000;
}

abbrev pub network-Unrelated : Unrelated network
network-Unrelated = record {
  of_wait = λ d w e k h. cc;
  of_reject = λ method url e k h. cc;
  of_decode = λ b w e k h. cc;
}

-- A busy answer, then one that knows nobody.
abbrev pub stranger : Net
stranger = record flaky {
  script =
      value (record { status_code = 503; body = 1 })
      ∷ value (record { status_code = 404; body = 2 })
      ∷ [];
}
