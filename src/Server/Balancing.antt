-- ===== src/Server/Balancing.antt =====
-- The tables as the reading endpoint shows them: an order whose lines add up to its total.
use microservices_platform.Prelude.{
  ◌≡◌, refl, sym, ◌∙◌, ap, subst, ℤ, pos, ◌+ℤ◌, ◌*ℤ◌, int_laws, List, [], ◌∷◌,
}
use mathlib.Core.List.{Perm, foldr}
use mathlib.Core.List.Perm
use microservices_platform.Int64.{wrap64}
use microservices_platform.Go.{ok}
use microservices_platform.Uuid.{Uuid, UuidLaws}
use microservices_platform.Models.{Order, OrderItem}
use microservices_platform.Service.{OrderService}
use microservices_platform.Service.Pricing.{exact_total}
use microservices_platform.Repository.{Pool, get_by_id}
use microservices_platform.Repository.Tables.{Transactional}
use microservices_platform.Repository.Finding.{items_of, Selecting, get_by_id_lem}
use microservices_platform.Repository.Updating.{Updating}
use microservices_platform.Repository.Totals.{AddsUp, IsStatus, Balances, IsBalanced}
use microservices_platform.Repository.Interleaving.{System, Failing, Turns}
use microservices_platform.Repository.Interleaving.Totals.{Turns-IsBalanced}
use microservices_platform.Handlers.{Reply, reply, one_order, get_order}
use microservices_platform.Handlers.Showing.{get_order-shown}
use microservices_platform.Server.Persistence.{stored_in}

abbrev with_line : OrderItem → ℤ → ℤ
with_line i total = i.unit_price_cents *ℤ i.quantity +ℤ total

exact_total-foldr : (is : List OrderItem) → foldr with_line (pos 0) is ≡ exact_total is
unfolding exact_total
exact_total-foldr [] = refl
exact_total-foldr (i ∷ is) = rw (exact_total-foldr is) refl

ℤ_set : IsSet ℤ
ℤ_set = hlevel

-- The total does not depend on the order of the lines.
exact_total-Perm : (is js : List OrderItem) → Perm is js → exact_total is ≡ exact_total js
exact_total-Perm is js perm =
    sym (exact_total-foldr is)
    ∙ Perm.foldr-eq ℤ_set with_line (λ i j total. omega int_laws) perm (pos 0)
    ∙ exact_total-foldr js

module _ {W Tx : Type 0} (s : OrderService W) (p : Pool W Tx) (d : Transactional p s.uuids)
    (q : Selecting p s.uuids d) where
  get_by_id-AddsUp :
      (id : Uuid) (w : W) {found : Order}
      → IsBalanced (d.tables w)
      → (get_by_id p s.uuids id w).0 ≡ ok found
      → AddsUp found × IsStatus found.status
  get_by_id-AddsUp id w {found} h got =
      let (row, at, whole, perm) = get_by_id_lem p s.uuids d q id w got in
      let (total, known) = subst (λ r. Balances r (items_of id (d.tables w).items)) at (h id) in
      (
        ap (λ (o : Order). o.total_cents) whole
            ∙ total
            ∙ ap wrap64 (sym (exact_total-Perm found.items (items_of id (d.tables w).items) perm)),
        subst IsStatus (sym (ap (λ (o : Order). o.status) whole)) known,
      )

  -- However the turns of several calls of CreateOrder have followed each other since the tables
  -- were balanced (IsBalanced), a GET of an order by an identifier as uuid prints it that is
  -- answered with 200 shows an order whose TotalCents is the sum of its lines, wrapped to 64 bits,
  -- and whose status is PENDING, CONFIRMED or FAILED. Assumes the documented effects of
  -- transactions, SELECT and UPDATE (Transactional, Selecting, Updating, Failing), and that
  -- uuid.Parse reads what String writes (UuidLaws).
  pub get_order-AddsUp :
      Updating p s.uuids d
      → Failing p s.uuids d
      → UuidLaws s.uuids
      → {start now : System W} → IsBalanced (d.tables start.world)
      → Turns p s.uuids d start now
      → (id : Uuid) {g : Reply}
      → (get_order (stored_in s p d) (s.uuids.to_string id) now.world).0 ≡ ok g
      → g.status ≡ 200
      → (found : Order) × (g ≡ reply 200 (one_order found)) × AddsUp found × IsStatus found.status
  get_order-AddsUp u f laws {start} {now} h turns id gotten fine =
      let (found, reply_is, got) =
        get_order-shown (stored_in s p d) laws id now.world gotten fine in
      let (adds, known) =
        get_by_id-AddsUp id now.world (Turns-IsBalanced p s.uuids d u f turns h) got in
      (found, reply_is, adds, known)
