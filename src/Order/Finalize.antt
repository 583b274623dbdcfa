-- ===== src/Order/Finalize.antt =====
-- PaymentService.finalize_paypal_payment: the dispatch, and the payment of an order.
use i_dolly_backend.Database.{Database}
use i_dolly_backend.Error.{ErrorClass, plain}
use i_dolly_backend.Notification.{notice}
use i_dolly_backend.Order.{
  Lines, is_short, is_ordered, put_order, take_products, clear_cart, is_empty_lines,
}
use i_dolly_backend.Payment.{Request}
use i_dolly_backend.Payment.Finalize.{
  is_pg_order, is_foreign, put_payment, captured_payment, finalize_ticket,
}
use i_dolly_backend.Prelude.{
  not, ◌||◌, Option, none, some, [], ◌∷◌, ◌++◌, map, if◌then◌else◌, ◌==◌, any, find, filter, update,
  is_some,
}
use i_dolly_backend.Rows.{find_ticket, add_notification}
use i_dolly_backend.Schema.{
  OrderStatus, ShippingStatus, NotificationType, is_pending_payment_row, is_pending_order,
}
use i_dolly_backend.Session.{
  Service, Effect, pure, query, found, modify, commit, emit, send, when, ◌>>=◌, ◌>>◌,
}
use i_dolly_backend.Tables.{Uuid, Time, Order, Payment}

abbrev pub order_lines : Uuid → Database → Lines
order_lines order_id db =
    map (λ i. (i.product_id, i.quantity)) (filter (λ i. i.order_id == order_id) db.order_items)

abbrev pub captured_order_status : Option (Option Uuid) → OrderStatus
captured_order_status (some capture_id) = OrderStatus.confirmed
captured_order_status none = OrderStatus.cancelled

abbrev pub captured_shipping_status : Option (Option Uuid) → ShippingStatus
captured_shipping_status (some capture_id) = ShippingStatus.pending
captured_shipping_status none = ShippingStatus.cancelled

-- The order's row of shipping_status is updated, or made if there is none.
unfoldable pub put_shipping : Uuid → ShippingStatus → Time → Database → Database
put_shipping order_id status' now db = record db {
  shipping_statuses =
      if any (λ x. x.order_id == order_id) db.shipping_statuses
      then update (λ x. x.order_id == order_id)
          (λ x. record x { status = status'; updated_at = now }) db.shipping_statuses
      else db.shipping_statuses
        ++ record { order_id = order_id; status = status'; updated_at = now } ∷ [];
}

-- From the capture to the end.
unfoldable pub capture_order : Request → Uuid → Payment → Order → Lines → Service (Option Payment)
capture_order req pg_order_id payment order lines = do
  emit (Effect.capture_order pg_order_id)
  capture ← found (plain ErrorClass.gateway_error) (req.capture_order pg_order_id)
  modify (put_payment (captured_payment payment capture))
  when (is_some capture) (do
    modify (take_products lines)
    modify (clear_cart payment.user_id lines)
    modify (
        add_notification (record (notice payment.user_id NotificationType.order_confirmation) {
          order_id = some order.id;
        })))
  modify (put_order (record order { status = captured_order_status capture }))
  modify (put_shipping order.id (captured_shipping_status capture) req.now)
  commit
  when (is_some capture)
      (do send Effect.delete_cached_products; send Effect.delete_cached_product_details)
  pure (some (captured_payment payment capture))

-- The checks on the order, its items and their products.
unfoldable pub finalize_order :
    Request → Uuid → Option Uuid → Payment → Option Order → Service (Option Payment)
finalize_order req pg_order_id user_id payment none = pure none
finalize_order req pg_order_id user_id payment (some order) =
    if is_foreign user_id order.user_id || not (is_pending_order order.status)
    then pure none
    else (do
      lines ← query (order_lines order.id)
      stocked ← query (λ db. any (is_ordered lines) db.products)
      short ← query (λ db. any (λ p. is_short lines p) (filter (is_ordered lines) db.products))
      if is_empty_lines lines || not stocked || short
          then pure none
          else capture_order req pg_order_id payment order lines)

-- Which of the two the payment is for; a payment for neither is committed as it is.
unfoldable pub finalize_for :
    Request → Uuid → Option Uuid → Payment → Option Uuid → Option Uuid → Service (Option Payment)
finalize_for req pg_order_id user_id payment (some ticket_id) order_id = do
  ticket ← query (find_ticket ticket_id)
  finalize_ticket req pg_order_id user_id payment ticket
finalize_for req pg_order_id user_id payment none (some order_id) = do
  order ← query (λ db. find (λ o. o.id == order_id) db.orders)
  finalize_order req pg_order_id user_id payment order
finalize_for req pg_order_id user_id payment none none = do commit; pure (some payment)

unfoldable pub finalize_found :
    Request → Uuid → Option Uuid → Option Payment → Service (Option Payment)
finalize_found req pg_order_id user_id none = pure none
finalize_found req pg_order_id user_id (some payment) =
    if not (is_pending_payment_row payment.status) || is_foreign user_id payment.user_id
    then pure none
    else finalize_for req pg_order_id user_id payment payment.ticket_id payment.order_id

-- PaymentService.finalize_paypal_payment
unfoldable pub finalize_paypal_payment : Request → Uuid → Option Uuid → Service (Option Payment)
finalize_paypal_payment req pg_order_id user_id = do
  payment ← query (λ db. find (is_pg_order pg_order_id) db.payments)
  finalize_found req pg_order_id user_id payment
