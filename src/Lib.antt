-- ===== src/Lib.antt =====
-- Verification of order-service (order-service/), the Go service of ShopStream that places orders.
--
-- The program: a request to POST /api/v1/orders is bound by gin and handed to the service. The
-- service parses the user's identifier, asks user-service whether the user exists, prices every line
-- by product-service, stores the order as PENDING, charges it at payment-service, and records
-- CONFIRMED or FAILED. The calls go through one HTTP client with a timeout, retries and a growing
-- wait. Two more endpoints read orders, and two answer probes.
--
-- Files and code:
--   Service.antt, Service/       order-service/internal/service/order_service.go. price_item and
--                                price_items are the loop over req.Items, prepare the part of
--                                CreateOrder before repo.Create, settle the part after it; finish,
--                                final_status, record_status and conclude are the parts of settle.
--                                Refusing describes which orders are refused, and as what;
--                                Charging, what the answer to a charge makes of an order;
--                                Traffic, how many calls an order takes.
--   Errors.antt                  internal/service/errors.go, the error variables of
--                                internal/client/*.go, fmt.Errorf with %w, errors.Is and the Timeout
--                                test of classifyErr.
--   Models.antt                  internal/models/order.go, with the binding tags.
--   Client/Wire.antt, Client/Http.antt, Client/Http/
--                                internal/client/http_client.go: do_request is Do, try_from its loop
--                                on the rounds that are left, pause, react and give_up its parts.
--   Client/Calls.antt, Client/Calls/
--                                internal/client/user_client.go, product_client.go and
--                                payment_client.go.
--   Repository.antt, Repository/ internal/repository/order_repository.go; Schema, the columns of
--                                migrations/0001_init.up.sql; Seed, 0002_seed_data.up.sql; Totals,
--                                what the two tables say together; Interleaving, calls of several
--                                requests as turns.
--   Handlers.antt, Handlers/     internal/handlers/order_handler.go and health_handler.go.
--   Config.antt, Config/         internal/config/config.go.
--   Middleware.antt, Middleware/ internal/middleware/middleware.go, and the chain of gin's handlers.
--   Server.antt, Server/         cmd/server/main.go: parseLevel and the wiring of the clients and the
--                                service; Startup, main down to its ping; Routes, the middleware and
--                                the routes; Lifecycle, the listener and the shutdown. Posting,
--                                Persistence, Remaining, Rereading, Relisting, Balancing,
--                                Concurrency, Traffic, Storable and Unknown are about the parts
--                                together.
--   Go.antt, Log.antt, Uuid.antt, Int64.antt, Prelude.antt
--                                what all of them use of Go: calls, log lines, identifiers, times,
--                                integers of 64 bits; and the shared helpers.
--   Fixtures.antt, and the Tests of each part: concrete worlds, and the theorems at concrete data.
--
-- How code becomes definitions. A call is a function of the world W, which is a parameter: it
-- returns a value, an error or a panic, and the next world (Go W A). A function that returns an order
-- together with an error returns the pair. Two error variables are equal when they are the same
-- variable, whatever their texts. An int and a time.Duration are integers with the wrap-around of 64
-- bits written out (add64, mul64). An identifier is the number that its sixteen bytes spell, and a
-- time a number of nanoseconds.
--
-- Concurrency. Two parts are relations, since their steps come in any order: the process of
-- cmd/server (Server/Lifecycle), whose steps are single statements of main and of the goroutine that
-- listens, the timer of the shutdown's context, and what happens on the connections; and the calls of
-- the repository by requests that run at the same time (Repository/Interleaving), where a turn is one
-- call of Create or UpdateStatus, or anything that leaves the tables alone. How Shutdown and
-- ListenAndServe behave is documented behaviour of net/http, which the step relations of
-- Server/Lifecycle state as their guards.
--
-- Bounds. The loop of Do is a recursion on the rounds that are left, which start at the number of
-- retries plus one, or at none if that number is negative: they are exactly the rounds of the Go
-- loop, so nothing is cut off. One setting is outside the model: with the greatest int as the number
-- of retries the loop variable wraps around and the Go loop never ends by itself, where the model's
-- ends after 2 ^ 63 rounds.
--
-- Parameters. Code outside the repository is a parameter: net/http, encoding/json, time and the
-- context (Transport, Clock), pgx and PostgreSQL (Pool, Boot), github.com/google/uuid (Uuids),
-- log/slog (Logger), gin's recovery (Recover) and strconv.Atoi. Where a theorem relies on what they
-- document, it says so in a named hypothesis: UuidLaws; Sending, Opening, Waiting and Beside, which
-- observe the requests, the response bodies and the waits; Transactional, Selecting, Listing,
-- Updating, Failing, Apart and Away, which observe the tables; Recovering, of gin; Unrelated and
-- ForeignErrors, of errors of other packages; NoPanic, of the calls of the service; and Catalogue,
-- of product-service. The tests show each of them on a concrete world.
--
-- Not modelled: how gin matches a path and the JSON that it reads and writes; the keys and the indexes
-- of migrations/; what happens inside a transaction while others write; the five other services, which
-- order-service reaches by HTTP only or not at all.
pub mod Prelude
pub mod Int64
pub mod Errors
pub mod Go
pub mod Uuid
pub mod Models
pub mod Client
pub mod Config
pub mod Log
pub mod Service
pub mod Repository
pub mod Server
pub mod Handlers
pub mod Middleware
pub mod Fixtures
