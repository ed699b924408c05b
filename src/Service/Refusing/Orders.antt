-- ===== src/Service/Refusing/Orders.antt =====
-- The orders that are refused before they are stored.
use microservices_platform.Prelude.{
  ◌≡◌, ◌↔◌, inl, inr, refl, ◌∙◌, subst, false, Bool-cases, pos, [], arith,
}
use microservices_platform.Errors.{Error, wrapped, service, client, ServiceError, ClientError, is}
use microservices_platform.Errors.Laws.{is-wrapped, is_unique}
use microservices_platform.Go.{err, value}
use microservices_platform.Go.Laws.{Outcome-cases, Result-cases}
use microservices_platform.Uuid.{Uuid}
use microservices_platform.Models.{Order, CreateOrderRequest}
use microservices_platform.Service.{OrderService, detailed, user_error, prepare, create_order}
use microservices_platform.Service.Outcomes.{settle-ne-err}
use microservices_platform.Service.Refusals.{Wraps}
use microservices_platform.Service.Preparing.{numbered_world}
use microservices_platform.Service.Refusing.{RefusedAs, UserFails, Refuses}
use microservices_platform.Service.Refusing.Lines.{price_items-err, price_items_of_LinesFail}

module _ {W : Type 0} (s : OrderService W) (req : CreateOrderRequest) (w : W) where
  prepare-err :
      {e : Error} → (prepare s req w).0 ≡ err e → (k : ServiceError) × Wraps e k × Refuses s req w k
  unfolding prepare user_error is
  prepare-err {e} h = elim (Result-cases (s.uuids.parse req.user_id)) [
    | inr (cause, bad) ↦ (ServiceError.validation, ground arith, inl (refl, (cause, bad)))
    | inl (id, parsed) ↦ elim (Outcome-cases (s.verify_user_exists req.user_id w).0) [
      | inl (tt, verified) ↦
          let (k, wraps, fails) =
            price_items-err s req.items (pos 0) [] (numbered_world s req w) {e = e}
              (ground arith) in
          (k, wraps, inr ((id, parsed), inr (verified, fails)))
      | inr (inl (cause, bad)) ↦ elim (Bool-cases (is cause (client ClientError.user_not_found))) [
        | inl unknown ↦ (
          ServiceError.user_not_found,
          ground arith,
          inr ((id, parsed), inl (cause, bad, unknown)),
        )
        | inr other ↦ (
          ServiceError.upstream_unavailable,
          ground arith,
          inr ((id, parsed), inl (cause, bad, other)),
        )
      ]
      | inr (inr (m, bad)) ↦ absurd (ground arith)
    ]
  ]

  prepare_of_UserFails :
      (k : ServiceError) {id : Uuid}
      → s.uuids.parse req.user_id ≡ value id
      → UserFails s req w k
      → RefusedAs k (prepare s req w).0
  unfolding prepare user_error is
  prepare_of_UserFails ServiceError.user_not_found parsed (cause, bad, unknown) =
      (user_error cause, ground arith, ground arith)
  prepare_of_UserFails ServiceError.upstream_unavailable parsed (cause, bad, other) =
      (user_error cause, ground arith, ground arith)
  prepare_of_UserFails ServiceError.validation parsed h = absurd h
  prepare_of_UserFails ServiceError.product_not_found parsed h = absurd h
  prepare_of_UserFails ServiceError.product_unavailable parsed h = absurd h
  prepare_of_UserFails ServiceError.order_not_found parsed h = absurd h
  prepare_of_UserFails ServiceError.payment_declined parsed h = absurd h

  prepare_of_Refuses : (k : ServiceError) → Refuses s req w k → RefusedAs k (prepare s req w).0
  unfolding prepare is
  prepare_of_Refuses k (inl (k_is, (cause, bad))) =
      (detailed ServiceError.validation ": invalid userId", ground arith, rw k_is refl)
  prepare_of_Refuses k (inr ((id, parsed), inl fails)) = prepare_of_UserFails k parsed fails
  prepare_of_Refuses k (inr ((id, parsed), inr (verified, fails))) =
      let (e, bad, wraps) =
        price_items_of_LinesFail s req.items (pos 0) [] (numbered_world s req w) k fails in
      (e, ground arith, wraps)

  create_order-refused :
      {e : Error} (k : ServiceError)
      → ((order : Order) (before : W) (cause : Error)
          → (s.repo.create order before).0 ≡ err cause
          → is cause (service k) ≡ false)
      → (create_order s req w).0 ≡ err e
      → Wraps e k
      → (prepare s req w).0 ≡ err e
  unfolding create_order
  create_order-refused {e} k others h refused =
      let before = (prepare s req w).1 in
      elim (Outcome-cases (prepare s req w).0) [
        | inl (order, p) ↦ elim (Outcome-cases (s.repo.create order before).0) [
          | inl (stored, c) ↦
              absurd (settle-ne-err s stored (s.repo.create order before).1 e (ground arith))
          | inr (inl (cause, c)) ↦
              let same : e ≡ wrapped "persisting order: " "" cause = ground arith in
              let wraps = subst (λ x. Wraps x k) same refused in
              let apart =
                is-wrapped "persisting order: " "" cause (service k)
                ∙ others order before cause c in
              absurd (ground arith)
          | inr (inr (m, c)) ↦ absurd (ground arith)
        ]
        | inr (inl (e', p)) ↦ ground arith
        | inr (inr (m, p)) ↦ absurd (ground arith)
      ]

  -- The errors of storing are none of the variables.
  pub create_order-RefusedAs_iff :
      ((order : Order) (before : W) (cause : Error) (k : ServiceError)
        → (s.repo.create order before).0 ≡ err cause
        → is cause (service k) ≡ false)
      → (k : ServiceError) → RefusedAs k (create_order s req w).0 ↔ Refuses s req w k
  create_order-RefusedAs_iff others k = (
    (λ (e, h, wraps).
        let prepared = create_order-refused {e = e} k (λ o b c. others o b c k) h wraps in
        let (k', wraps', refuses) = prepare-err prepared in
        subst (Refuses s req w) (is_unique e k' k wraps' wraps) refuses),
    (λ refuses.
        let (e, bad, wraps) = prepare_of_Refuses k refuses in
        (e, unfold create_order in ground arith, wraps)),
  )
