-- ===== src/Server/Traffic.antt =====
-- What placing an order leaves on the network: how many requests, how long the waits between them,
-- and no open body.
mod Tests
use microservices_platform.Prelude.{
  ℕ, suc, ◌+◌, ◌-◌, ◌*◌, ◌^◌, ◌≤◌, ◌<◌, ◌≡◌, String, ℤ, ◌∷◌, map, refl, sym, ◌∙◌, ap, subst, pos,
  List, [], ◌++◌, length, length-append, append_assoc, arith,
}
use mathlib.Core.List.{map-append}
use native.Mathlib.Nat.{le_trans, mul-le-mul_right}
use microservices_platform.Go.{value}
use microservices_platform.Go.Costs.{Tariff}
use microservices_platform.Log.{Logger, LogLine}
use microservices_platform.Uuid.{Uuid, Uuids}
use microservices_platform.Config.{Config}
use microservices_platform.Models.{Order, OrderStatus, CreateOrderRequest}
use microservices_platform.Client.Wire.{ChargeRequest}
use microservices_platform.Client.Http.Doubling.{sum}
use microservices_platform.Client.Http.Waits.{Waiting}
use microservices_platform.Client.Calls.Pauses.{
  Pauses, verify_user_exists-Pauses, get_product-Pauses, charge-Pauses,
}
use microservices_platform.Client.Http.{Request, Transport}
use microservices_platform.Client.Http.Attempts.{Sending}
use microservices_platform.Client.Http.Bodies.{Opening, Leaves, Leaves-trans}
use microservices_platform.Client.Calls.Closing.{
  verify_user_exists-Leaves, get_product-Leaves, charge-Leaves,
}
use microservices_platform.Client.Calls.Sends.{
  Sends, verify_user_exists-Sends, get_product-Sends, charge-Sends,
}
use microservices_platform.Service.{OrderRepository}
use microservices_platform.Service.Traffic.{Billed, create_order-Costs}
use microservices_platform.Handlers.{create_order}
use microservices_platform.Handlers.Showing.{create_order-world}
use microservices_platform.Server.{order_service}

-- The repository and the package uuid leave what is observed as it was.
pub record Beside {W A : Type 0} (uuids : Uuids W) (repo : OrderRepository W) (seen : W → A)
    : Type 0 where
  pub seen-create : (o : Order) (w : W) → seen (repo.create o w).1 ≡ seen w
  pub seen-update_status :
      (id : Uuid) (status : OrderStatus) (w : W) → seen (repo.update_status id status w).1 ≡ seen w
  pub seen-new : (w : W) → seen (uuids.new w).1 ≡ seen w

sum-append : (m l : List ℕ) → sum (m ++ l) ≡ sum m + sum l
sum-append [] l = omega arith
sum-append (x ∷ m) l = omega (arith, sum-append m l)

sum-within : (j k b : ℕ) (l m : List ℕ) → sum l ≤ j * b → sum m ≤ k * b → sum (m ++ l) ≤ (j + k) * b
sum-within j k b l m few more = grind (arith, sum-append m l)

module _ {W Body : Type 0} (t : Transport W Body) (logger : Logger W) (uuids : Uuids W)
    (repo : OrderRepository W) (cfg : Config) where
  -- The service on a tariff by which nothing costs what is not seen.
  billed :
      (T : Tariff W) {A : Type 0} (seen : W → A)
      → ((w w' : W) → seen w' ≡ seen w → T.Step 0 w w')
      → Beside uuids repo seen
      → ((l : LogLine) (w : W) → seen (logger l w) ≡ seen w)
      → let s = order_service t logger uuids repo cfg in
        ((id : String) (w : W) → T.Step 1 w (s.verify_user_exists id w).1)
        → ((id : String) (w : W) → T.Step 1 w (s.get_product id w).1)
        → ((r : ChargeRequest) (w : W) → T.Step 1 w (s.charge r w).1)
        → Billed s T
  billed T seen still b log verify fetch pay = record {
    asking = record {
      verifying = λ id. record { leads = λ w. (1, omega arith, verify id w) };
      fetching = λ id. record { leads = λ w. (1, omega arith, fetch id w) };
      numbering = λ w. still w _ (b.seen-new w);
    };
    charging = λ r. record { leads = λ w. (1, omega arith, pay r w) };
    creating = λ order. record { leads = λ w. (0, omega arith, still w _ (b.seen-create order w)) };
    updating = λ id status. record {
      leads = λ w. (0, omega arith, still w _ (b.seen-update_status id status w));
    };
    logging = λ l w. still w _ (log l w);
  }

  module _ (n : ℕ) (retries : cfg.http_retry_attempts ≡ pos n) where
    module _ (o : Sending t logger) (b : Beside uuids repo o.sent) where
      -- So many calls, of n + 1 requests at most.
      abbrev SendsFor : ℕ → W → W → Type 0
      SendsFor k w w' = Sends t logger o (k * suc n) w w'

      SendsFor-follows :
          (j k : ℕ) (u v w : W) → SendsFor j u v → SendsFor k v w → SendsFor (j + k) u w
      SendsFor-follows j k u v w (l, few, e) (m, more, e') = (
        m ++ l,
        grind (arith, length-append m l),
        e' ∙ ap (λ (x : List Request). m ++ x) e ∙ sym (append_assoc m l (o.sent u)),
      )

      call-SendsFor : (w w' : W) → Sends t logger o (suc n) w w' → SendsFor 1 w w'
      call-SendsFor w w' (l, few, e) = (l, omega arith, e)

      abbrev by_requests : Tariff W
      by_requests = record {
        Step = SendsFor;
        stays = λ w. ([], omega arith, refl);
        follows = SendsFor-follows;
      }

      -- In the service that main puts together, with a number of retries n in the settings that is
      -- not negative, the handler sends at most (k + 2) * (n + 1) requests to the siblings for a
      -- bound order of k lines, however it ends and whatever the network does. What was sent is
      -- read off the world by an observer that each send extends by its request and that no other
      -- step of a call changes (Sending), nor the repository nor the package uuid (Beside).
      pub create_order-Sends :
          (req : CreateOrderRequest) (w : W)
          → Sends t logger o
              ((length req.items + 2) * suc n)
              w
              (create_order (order_service t logger uuids repo cfg) (value req) w).1
      create_order-Sends req w =
          let service = order_service t logger uuids repo cfg in
          let bill =
            billed by_requests o.sent (λ u v e. ([], omega arith, e)) b o.sent-log
              (λ id v. call-SendsFor v _ (verify_user_exists-Sends t logger o _ n retries id v))
              (λ id v. call-SendsFor v _ (get_product-Sends t logger o _ n retries id v))
              (λ r v. call-SendsFor v _ (charge-Sends t logger o _ n retries r v)) in
          let (k, few, (l, bound, e)) = (create_order-Costs service by_requests bill req).leads w in
          (
            l,
            le_trans bound (mul-le-mul_right (suc n) few),
            ap o.sent (create_order-world service req w) ∙ e,
          )

    module _ (base : ℕ) (waits : cfg.http_retry_backoff ≡ pos base) (one : 1 ≤ base)
        (fits : base * 2 ^ n < 2 ^ 63) (o : Waiting t logger) (b : Beside uuids repo o.waited) where
      -- So many calls, each with the waits of n retries at most.
      abbrev PausesFor : ℕ → W → W → Type 0
      PausesFor k w w' = Pauses t logger o (k * (base * 2 ^ n - base)) w w'

      PausesFor-follows :
          (j k : ℕ) (u v w : W) → PausesFor j u v → PausesFor k v w → PausesFor (j + k) u w
      PausesFor-follows j k u v w (l, few, e) (m, more, e') = (
        m ++ l,
        sum-within j k (base * 2 ^ n - base) l m few more,
        e'
            ∙ ap (λ (x : List ℤ). map pos m ++ x) e
            ∙ sym (append_assoc (map pos m) (map pos l) (o.waited u))
            ∙ ap (λ (x : List ℤ). x ++ o.waited u) (sym (map-append pos m l)),
      )

      call-PausesFor : (w w' : W) → Pauses t logger o (base * 2 ^ n - base) w w' → PausesFor 1 w w'
      call-PausesFor w w' (l, few, e) = (l, omega arith, e)

      abbrev by_waits : Tariff W
      by_waits = record {
        Step = PausesFor;
        stays = λ w. ([], omega arith, refl);
        follows = PausesFor-follows;
      }

      -- In the service that main puts together, with n retries in the settings, a positive base
      -- wait, and base * 2^n below 2^63 nanoseconds, the waits that the handler asks for between
      -- the attempts of its calls are together at most (k + 2) * (base * 2^n - base) nanoseconds
      -- for a bound order of k lines, however it ends and whatever the network does. Waits are
      -- read off the world by an observer that each wait of the select extends by its duration and
      -- that no other step of a call changes (Waiting), nor the repository nor the package uuid
      -- (Beside).
      pub create_order-Pauses :
          (req : CreateOrderRequest) (w : W)
          → Pauses t logger o
              ((length req.items + 2) * (base * 2 ^ n - base))
              w
              (create_order (order_service t logger uuids repo cfg) (value req) w).1
      create_order-Pauses req w =
          let service = order_service t logger uuids repo cfg in
          let bill =
            billed by_waits o.waited (λ u v e. ([], omega arith, e)) b o.waited-log
              (λ id v.
                call-PausesFor v _
                  (verify_user_exists-Pauses t logger o _ n base retries waits one fits id v))
              (λ id v.
                call-PausesFor v _
                  (get_product-Pauses t logger o _ n base retries waits one fits id v))
              (λ r v.
                call-PausesFor v _
                  (charge-Pauses t logger o _ n base retries waits one fits r v)) in
          let (k, few, (l, bound, e)) = (create_order-Costs service by_waits bill req).leads w in
          (
            l,
            le_trans bound (mul-le-mul_right (base * 2 ^ n - base) few),
            ap o.waited (create_order-world service req w) ∙ e,
          )

  module _ (o : Opening t logger)
      (b : Beside {A = List Body × List Body} uuids repo (λ w. (o.opened w, o.closed w))) where
    abbrev by_bodies : Tariff W
    by_bodies = record {
      Step = λ k w w'. Leaves t logger o [] w w';
      stays = λ w. ([], refl, refl);
      follows = λ j k u v w first then. Leaves-trans t logger o [] u v w first then;
    }

    same-Leaves :
        (w w' : W)
        → ◌≡◌ {A = List Body × List Body} (o.opened w', o.closed w') (o.opened w, o.closed w)
        → Leaves t logger o [] w w'
    same-Leaves w w' e =
        ([], ap (λ (x : List Body × List Body). x.0) e, ap (λ (x : List Body × List Body). x.1) e)

    -- In the service that main puts together, the handler has closed, once, every response body
    -- that was opened for a bound order, however it ends, whatever the network does and whatever
    -- the settings are. Bodies are counted by an observer that a send with a response and a close
    -- extend and that no other step of a call changes (Opening), nor the repository nor the
    -- package uuid (Beside).
    pub create_order-Leaves :
        (req : CreateOrderRequest) (w : W)
        → Leaves t logger o [] w
            (create_order (order_service t logger uuids repo cfg) (value req) w).1
    create_order-Leaves req w =
        let service = order_service t logger uuids repo cfg in
        let bill =
          billed by_bodies {A = List Body × List Body} (λ v. (o.opened v, o.closed v)) same-Leaves b
            (λ l v i. (o.opened-log l v i, o.closed-log l v i))
            (λ id v. verify_user_exists-Leaves t logger _ o id v)
            (λ id v. get_product-Leaves t logger _ o id v)
            (λ r v. charge-Leaves t logger _ o r v) in
        let (k, few, left) = (create_order-Costs service by_bodies bill req).leads w in
        subst (λ w'. Leaves t logger o [] w w') (sym (create_order-world service req w)) left
