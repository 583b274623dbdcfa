-- ===== src/Order.antt =====
-- app/services/marketplace/order_service.py and the payment of an order
-- (PaymentService.create_payment).
pub mod Finalize
pub mod Atomic
pub mod Parcel
pub mod Life
pub mod Settled
pub mod Once
pub mod Ship
pub mod Shipped
pub mod Addresses
pub mod Private
pub mod Tests
use i_dolly_backend.Database.{Database}
use i_dolly_backend.Error.{ErrorClass, plain, coded}
use i_dolly_backend.Notification.{notice}
use i_dolly_backend.Payment.{
  Request, CheckoutData, Charge, charge_by, insert_payment, has_idempotency_key,
}
use i_dolly_backend.Prelude.{
  ℕ, ◌+◌, ◌-◌, ◌*◌, Bool, true, false, ◌&&◌, ◌||◌, not, Option, none, some, List, [], ◌∷◌, ◌++◌,
  map, if◌then◌else◌, ◌==◌, ltb, leb, any, find, filter, update, delete, sum_by, contains, lookup,
  is_some,
}
use i_dolly_backend.Rows.{find_user, add_notification}
use i_dolly_backend.Schema.{
  OrderStatus, PaymentStatus, ShippingStatus, NotificationType, is_success, is_unshipped,
  is_cancelled_shipping,
}
use i_dolly_backend.Session.{
  Service, Effect, pure, raise, query, found, raise_if, modify, write, commit, send, when, ◌>>=◌,
  ◌>>◌,
}
use i_dolly_backend.Tables.{
  Uuid, Time, User, Product, Category, Cart, Order, OrderItem, Payment, Shipping, ShippingAddress,
}
use i_dolly_backend.Tax.{with_tax, resale_cap_quantity}
use i_dolly_backend.Ticket.{is_fan_user}
use i_dolly_backend.Trigger.{enforce_fan_only_purchase, enforce_resale_cap, bought}

-- Product ids with quantities: the lines of a cart or of an order.
abbrev pub Lines : Type 0
Lines = List (Uuid × ℕ)

abbrev pub cart_lines : List Cart → Lines
cart_lines = map (λ c. (c.product_id, c.quantity))

-- `next((item for item in items if item.product_id == product.id), None)`; the products are
-- selected by the items' ids, so there is one.
abbrev pub line_quantity : Lines → Uuid → ℕ
line_quantity lines k = elim (lookup k lines) [ none ↦ 0 | some q ↦ q ]

-- `product.quantity < item.quantity`
abbrev pub is_short : Lines → Product → Bool
is_short lines p = ltb p.quantity (line_quantity lines p.id)

-- `product.quantity -= item.quantity`
abbrev pub take_stock : Lines → Product → Product
take_stock lines p = record p { quantity = p.quantity - line_quantity lines p.id }

abbrev pub is_ordered : Lines → Product → Bool
is_ordered lines p = contains p.id (map (λ l. l.0) lines)

-- `Product.category.has(is_resale_capped=True)`
abbrev pub is_resale_capped : Database → Uuid → Bool
is_resale_capped db product_id =
    any
      (λ p.
        p.id == product_id && any (λ c. c.id == p.category_id && c.is_resale_capped) db.categories)
      db.products

-- The cart item would take its buyer past the cap.
abbrev pub exceeds_cap : Database → Uuid → Cart → Bool
exceeds_cap db user_id item =
    is_resale_capped db item.product_id
    && ltb resale_cap_quantity (bought db user_id item.product_id + item.quantity)

abbrev pub cart_of : Uuid → Database → List Cart
cart_of user_id db = filter (λ c. c.user_id == user_id) db.carts

abbrev pub cart_total : List Cart → ℕ
cart_total = sum_by (λ c. with_tax c.total_price)

abbrev pub is_empty_lines : Lines → Bool
is_empty_lines [] = true
is_empty_lines (x ∷ xs) = false

abbrev pub is_empty_cart : List Cart → Bool
is_empty_cart [] = true
is_empty_cart (x ∷ xs) = false

-- The checks of checkout, up to the first write: the items that are bought.
unfoldable pub check_cart : Uuid → Uuid → CheckoutData → Service (List Cart)
check_cart user_id address_id data' = do
  raise_if (plain ErrorClass.fan_only_purchase) (not (is_fan_user (← query (find_user user_id))))
  raise_if (plain ErrorClass.address_id) (
      not
        (← query
          (λ db. any (λ a. a.id == address_id && a.user_id == user_id) db.shipping_addresses)))
  raise_if (plain ErrorClass.duplicate_idempotency_key)
      (← query (has_idempotency_key data'.idempotency_key))
  items ← query (cart_of user_id)
  raise_if (coded ErrorClass.cart_item "cart_empty") (is_empty_cart items)
  raise_if (plain ErrorClass.payment_amount_mismatch) (not (data'.amount == cart_total items))
  raise_if (plain ErrorClass.resale_cap_exceeded)
      (← query (λ db. any (exceeds_cap db user_id) items))
  raise_if (plain ErrorClass.insufficient_stock)
      (← query (λ db.
        any (λ p. is_ordered (cart_lines items) p && is_short (cart_lines items) p) db.products))
  pure items

-- INSERT INTO orders, with its trigger.
unfoldable pub insert_order : Order → Service (Unit {0})
insert_order o =
    write (λ db. enforce_fan_only_purchase db o.user_id)
      (λ db. record db { orders = db.orders ++ o ∷ [] })

abbrev pub order_item : Uuid → Cart → OrderItem
order_item order_id item = record {
  order_id = order_id;
  product_id = item.product_id;
  quantity = item.quantity;
  price = with_tax item.price;
}

-- INSERT INTO orders_items, with its trigger.
unfoldable pub insert_order_item : OrderItem → Service (Unit {0})
insert_order_item i =
    write (λ db. enforce_resale_cap db i)
      (λ db. record db { order_items = db.order_items ++ i ∷ [] })

unfoldable pub insert_order_items : Uuid → List Cart → Service (Unit {0})
insert_order_items order_id [] = pure tt
insert_order_items order_id (item ∷ items) = do
  insert_order_item (order_item order_id item)
  insert_order_items order_id items

-- The statuses that create_payment gives the order and its parcel.
abbrev pub order_status_for : PaymentStatus → OrderStatus
order_status_for PaymentStatus.success = OrderStatus.confirmed
order_status_for PaymentStatus.pending = OrderStatus.pending
order_status_for _ = OrderStatus.cancelled

abbrev pub shipping_status_for : PaymentStatus → ShippingStatus
shipping_status_for PaymentStatus.failed = ShippingStatus.cancelled
shipping_status_for PaymentStatus.cancelled = ShippingStatus.cancelled
shipping_status_for _ = ShippingStatus.pending

abbrev pub put_order : Order → Database → Database
put_order o db = record db { orders = update (λ x. x.id == o.id) (λ _. o) db.orders }

-- PaymentService.create_payment: the payment's status and the order as they stand after it.
unfoldable pub create_payment :
    Request → Uuid → Order → CheckoutData → Service (PaymentStatus × Order)
create_payment req user_id order data' = do
  charge ← charge_by req data' data'.gateway
  let order' : Order = record order { status = order_status_for charge.status }
  modify (put_order order')
  modify (λ db. record db {
    shipping_statuses =
        db.shipping_statuses
        ++ record {
          order_id = order.id;
          status = shipping_status_for charge.status;
          updated_at = req.now;
        }
          ∷ [];
  })
  insert_payment (record {
    id = req.new_payment_id;
    order_id = some order.id;
    ticket_id = none;
    user_id = user_id;
    amount = data'.amount;
    status = charge.status;
    payment_gateway = data'.gateway;
    is_paid = is_success charge.status;
    pg_order_id = charge.pg_order_id;
    pg_payment_id = charge.pg_payment_id;
    idempotency_key = data'.idempotency_key;
  })
  pure (charge.status, order')

-- The stock and the cart after a payment that went through.
abbrev pub take_products : Lines → Database → Database
take_products lines db = record db {
  products = update (is_ordered lines) (take_stock lines) db.products;
}

abbrev pub clear_cart : Uuid → Lines → Database → Database
clear_cart user_id lines db = record db {
  carts =
      delete (λ c. c.user_id == user_id && contains c.product_id (map (λ l. l.0) lines)) db.carts;
}

abbrev pub new_order : Request → Uuid → Uuid → List Cart → Order
new_order req user_id address_id items = record {
  id = req.new_order_id;
  user_id = user_id;
  shipping_address_id = address_id;
  total_price = cart_total items;
  status = OrderStatus.pending;
}

-- OrderService.checkout
unfoldable pub checkout : Request → Uuid → Uuid → CheckoutData → Service Order
checkout req user_id address_id data' = do
  items ← check_cart user_id address_id data'
  insert_order (new_order req user_id address_id items)
  insert_order_items req.new_order_id items
  (status, order) ← create_payment req user_id (new_order req user_id address_id items) data'
  when (is_success status) (do
    modify (take_products (cart_lines items))
    modify (clear_cart user_id (cart_lines items))
    modify (
        add_notification (record (notice user_id NotificationType.order_confirmation) {
          order_id = some order.id;
        })))
  commit
  when (is_success status)
      (do send Effect.delete_cached_products; send Effect.delete_cached_product_details)
  pure order
