-- ===== src/Fixtures.antt =====
-- Concrete siblings, worlds and requests, for the tests of the other modules.
pub mod Net
pub mod Newest
pub mod Disk
use Prim.Native.Char.{code}
use microservices_platform.Prelude.{
  ℕ, zero, suc, ◌+◌, ◌≡◌, refl, ap, String, true, false, ◌==◌, ℤ, pos, List, [], ◌∷◌, Option, none,
  some, if◌then◌else◌,
}
use microservices_platform.Errors.{
  Error, sentinel, foreign, client, stored_order_not_found, ClientError,
}
use microservices_platform.Go.{Result, value, failure, ok, err}
use microservices_platform.Uuid.{Uuid, Uuids, UuidLaws}
use microservices_platform.Models.{Order, CreateOrderItemRequest, CreateOrderRequest, pending}
use microservices_platform.Client.Wire.{ProductInfo, ChargeResult}
use microservices_platform.Service.{OrderService, OrderRepository}

-- Identifiers in a unary notation; only a "?" is refused.
abbrev pub tally_of : Uuid → String
tally_of zero = String.[]
tally_of (suc n) = String.◌∷◌ "1" (tally_of n)

abbrev pub count_marks : String → ℕ
count_marks String.[] = 0
count_marks (String.◌∷◌ c s) = suc (count_marks s)

abbrev pub read_tally : String → Result Uuid
read_tally String.[] = value 0
read_tally (String.◌∷◌ c s) =
    if code c == b'?' then failure (foreign false "invalid UUID") else value (suc (count_marks s))

count_marks-tally_of : (n : ℕ) → count_marks (tally_of n) ≡ n
count_marks-tally_of zero = refl
count_marks-tally_of (suc n) = ap suc (count_marks-tally_of n)

read_tally-tally_of : (n : ℕ) → read_tally (tally_of n) ≡ value n
read_tally-tally_of zero = refl
read_tally-tally_of (suc n) = ap (λ (k : ℕ). value (suc k)) (count_marks-tally_of n)

-- A world that counts the calls that change it: the next identifier is the count.
abbrev pub tallies : Uuids ℕ
tallies = record { parse = read_tally; to_string = tally_of; new = λ w. (w, w + 1) }

pub tallies-UuidLaws : UuidLaws tallies
tallies-UuidLaws = record { parse-to_string = read_tally-tally_of }

abbrev pub mouse : ProductInfo
mouse = record {
  id = "111";
  sku = "SKU-WIRELESS-MOUSE";
  name = "Mouse";
  price_cents = pos 1999;
  stock_quantity = pos 5;
  is_active = true;
}

abbrev pub stored_order : Order
stored_order = record {
  id = 7;
  user_id = 2;
  status = pending;
  total_cents = pos 3998;
  currency = "USD";
  items = [];
  created_at = 10;
  updated_at = 10;
}

-- One order is known; storing stamps the order with the count.
abbrev pub shelf : OrderRepository ℕ
shelf = record {
  create = λ o w. (ok (record o { created_at = w; updated_at = w }), w + 1);
  get_by_id =
      λ id w. (if id == 7 then ok stored_order else err (sentinel stored_order_not_found), w);
  list_by_user = λ id w. (ok [], w);
  update_status = λ id status w. (ok tt, w + 1);
}

-- Its siblings know every user, sell mice, and accept the card.
abbrev pub shop : OrderService ℕ
shop = record {
  repo = shelf;
  verify_user_exists = λ user_id w. (ok tt, w);
  get_product = λ product_id w. (ok mouse, w + 1);
  charge =
      λ r w. (ok (record { transaction_id = "txn_1"; status = "SUCCEEDED"; reason = "" }), w + 1);
  logger = λ line w. w + 1;
  uuids = tallies;
}

abbrev pub two_mice : CreateOrderRequest
two_mice = record { user_id = "11"; items = record { product_id = "111"; quantity = pos 2 } ∷ [] }

-- More than there are in stock.
abbrev pub nine_mice : CreateOrderRequest
nine_mice = record { user_id = "11"; items = record { product_id = "111"; quantity = pos 9 } ∷ [] }
