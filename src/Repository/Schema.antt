-- ===== src/Repository/Schema.antt =====
-- order-service/migrations: the types and the checks of the columns that the package writes.
use microservices_platform.Prelude.{ℕ, zero, suc, ◌-◌, ◌^◌, ◌≤◌, String, ℤ, pos, negsuc, ◌≤ℤ◌, All}
use microservices_platform.Models.{Order, OrderItem}
use microservices_platform.Repository.{OrderRow, row_of}

-- INTEGER
abbrev pub IsInteger : ℤ → Type 0
IsInteger a = (negsuc (2 ^ 31 - 1) ≤ℤ a) × (a ≤ℤ pos (2 ^ 31 - 1))

abbrev pub length_of : String → ℕ
length_of String.[] = zero
length_of (String.◌∷◌ c s) = suc (length_of s)

-- VARCHAR(n)
abbrev pub IsVarchar : ℕ → String → Type 0
IsVarchar n s = length_of s ≤ n

-- A row of the table orders.
abbrev pub FitsOrder : OrderRow → Type 0
FitsOrder r =
    IsVarchar 20 r.status
    × IsInteger r.total_cents
    × (pos 0 ≤ℤ r.total_cents)
    × IsVarchar 3 r.currency

-- A row of the table order_items.
abbrev pub FitsItem : OrderItem → Type 0
FitsItem i =
    IsVarchar 64 i.sku
    × (IsInteger i.quantity × (pos 1 ≤ℤ i.quantity))
    × (IsInteger i.unit_price_cents × (pos 0 ≤ℤ i.unit_price_cents))

-- All the rows of an order.
abbrev pub FitsSchema : Order → Type 0
FitsSchema o = FitsOrder (row_of o) × All FitsItem o.items
