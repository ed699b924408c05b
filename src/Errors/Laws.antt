-- ===== src/Errors/Laws.antt =====
-- `errors.Is` sees through wrapping, and tells the variables apart.
use microservices_platform.Prelude.{
  ℕ, ap, ◌∙◌, ◌≡◌, ◌≤◌, ◌⊎◌, inl, inr, refl, sym, true, false, String, ◌==◌, if◌then◌else◌, ==_iff,
  arith,
}
use microservices_platform.Errors.{
  Sentinel, Error, sentinel, wrapped, foreign, is, address, ServiceError, ClientError, service,
  client, stored_order_not_found, no_rows, canceled, deadline_exceeded,
}

pub is-wrapped :
    (before after : String) (e : Error) (s : Sentinel) → is (wrapped before after e) s ≡ is e s
unfolding is
is-wrapped before after e s = refl

pub is-sentinel_self : (s : Sentinel) → is (sentinel s) s ≡ true
unfolding is
is-sentinel_self s = (==_iff (address s) (address s)).1 refl

-- An error wraps at most one variable.
pub is-address : (e : Error) (s s' : Sentinel) → is e s ≡ true → is e s' ≡ (address s == address s')
unfolding is
is-address (sentinel r) s s' h =
    ap (λ (n : ℕ). n == address s') ((==_iff (address r) (address s)).0 h)
is-address (wrapped before after e) s s' h = is-address e s s' h
is-address (foreign timeout t) s s' h = cc

pub is-apart :
    (e : Error) (a b : Sentinel) → (address a == address b) ≡ false → is e a ≡ true → is e b ≡ false
is-apart e a b apart h = is-address e a b h ∙ apart

-- The variables of internal/service/errors.go come first.
address_of_service : (k : ServiceError) → address (service k) ≤ 6
address_of_service ServiceError.validation = omega arith
address_of_service ServiceError.user_not_found = omega arith
address_of_service ServiceError.product_not_found = omega arith
address_of_service ServiceError.product_unavailable = omega arith
address_of_service ServiceError.order_not_found = omega arith
address_of_service ServiceError.upstream_unavailable = omega arith
address_of_service ServiceError.payment_declined = omega arith

is_of_later :
    (s : Sentinel) → 7 ≤ address s → (k : ServiceError) → is (sentinel s) (service k) ≡ false
unfolding is
is_of_later s h k = ground (arith, address_of_service k)

-- An error wraps one of the variables of internal/service/errors.go, or none of them.
pub service-cases :
    (e : Error)
    → ((k : ServiceError) × (is e (service k) ≡ true))
      ⊎ ((k : ServiceError) → is e (service k) ≡ false)
unfolding is
service-cases (wrapped before after e) = service-cases e
service-cases (foreign timeout t) = inr (λ k. refl)
service-cases (sentinel (service k)) = inl (k, is-sentinel_self (service k))
service-cases (sentinel (client ClientError.downstream_unavailable)) =
    inr (is_of_later (client ClientError.downstream_unavailable) (omega arith))
service-cases (sentinel (client ClientError.downstream_timeout)) =
    inr (is_of_later (client ClientError.downstream_timeout) (omega arith))
service-cases (sentinel (client ClientError.user_not_found)) =
    inr (is_of_later (client ClientError.user_not_found) (omega arith))
service-cases (sentinel (client ClientError.product_not_found)) =
    inr (is_of_later (client ClientError.product_not_found) (omega arith))
service-cases (sentinel stored_order_not_found) =
    inr (is_of_later stored_order_not_found (omega arith))
service-cases (sentinel no_rows) = inr (is_of_later no_rows (omega arith))
service-cases (sentinel canceled) = inr (is_of_later canceled (omega arith))
service-cases (sentinel deadline_exceeded) = inr (is_of_later deadline_exceeded (omega arith))

-- The variable of an address.
abbrev variable_at : ℕ → ServiceError
variable_at n =
    if n == 0
    then ServiceError.validation
    else if n == 1
    then ServiceError.user_not_found
    else if n == 2
    then ServiceError.product_not_found
    else if n == 3
    then ServiceError.product_unavailable
    else if n == 4
    then ServiceError.order_not_found
    else if n == 5
    then ServiceError.upstream_unavailable
    else ServiceError.payment_declined

variable_at-address : (k : ServiceError) → variable_at (address (service k)) ≡ k
variable_at-address ServiceError.validation = refl
variable_at-address ServiceError.user_not_found = refl
variable_at-address ServiceError.product_not_found = refl
variable_at-address ServiceError.product_unavailable = refl
variable_at-address ServiceError.order_not_found = refl
variable_at-address ServiceError.upstream_unavailable = refl
variable_at-address ServiceError.payment_declined = refl

-- An error wraps one variable of the service.
pub is_unique :
    (e : Error) (k k' : ServiceError) → is e (service k) ≡ true → is e (service k') ≡ true → k ≡ k'
is_unique e k k' h h' =
    let same = (==_iff _ _).0 (sym (is-address e (service k) (service k') h) ∙ h') in
    sym (variable_at-address k) ∙ ap variable_at same ∙ variable_at-address k'
