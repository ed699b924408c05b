-- ===== src/Repository/Keys.antt =====
-- Where the row of an identifier is, after the statements of the package.
use microservices_platform.Prelude.{
  ◌≡◌, ◌≢◌, refl, ap, inl, inr, false, if◌then◌else◌, ◌==◌, Bool-cases, Option, none, some, List,
  [], ◌∷◌, map, arith,
}
use microservices_platform.Uuid.{Uuid, Time}
use microservices_platform.Models.{Order, OrderStatus}
use microservices_platform.Repository.{OrderRow, set_status, insert_order, row_of}
use microservices_platform.Repository.Tables.{Tables, restatus, micros, apply, saved}
use microservices_platform.Repository.Finding.{find_row, orders-insert_all}

pub find_row-set_status :
    (status : OrderStatus) (time : Time) (id : Uuid) (rs : List OrderRow) {row : OrderRow}
    → find_row id rs ≡ some row
    → find_row id (map (restatus (set_status status time id)) rs)
      ≡ some (record row { status = status; updated_at = micros time })
find_row-set_status status time id [] h = absurd (cc)
find_row-set_status status time id (r ∷ rs) {row} h = elim (Bool-cases (r.id == id)) [
  | inl same ↦ ground arith
  | inr other ↦
      let later : find_row id rs ≡ some row = ground arith in
      rw other (rw other (find_row-set_status status time id rs later))
]

pub find_row-set_other :
    (status : OrderStatus) (time : Time) (id j : Uuid) (rs : List OrderRow)
    → j ≢ id
    → find_row j (map (restatus (set_status status time id)) rs) ≡ find_row j rs
find_row-set_other status time id j [] h = refl
find_row-set_other status time id j (r ∷ rs) h = elim (Bool-cases (r.id == id)) [
  | inl same ↦
      let apart : (r.id == j) ≡ false = ground arith in
      rw same (rw apart (find_row-set_other status time id j rs h))
  | inr other ↦ rw other (
      ap (λ (found : Option OrderRow). if r.id == j then some r else found)
        (find_row-set_other status time id j rs h))
]

-- A new row hides no other.
pub find_row-saved_other :
    (o : Order) (t : Tables) (id : Uuid) {row : OrderRow}
    → find_row o.id t.orders ≡ none
    → find_row id t.orders ≡ some row
    → find_row id (saved o t).orders ≡ some row
find_row-saved_other o t id fresh at =
    let apart : (o.id == id) ≡ false = ground arith in
    rw (orders-insert_all o.id o.items (apply (insert_order (row_of o)) t)) (rw apart at)
