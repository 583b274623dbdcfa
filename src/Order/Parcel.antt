-- ===== src/Order/Parcel.antt =====
-- OrderService.cancel_placed_order and update_shipping_status: the life of a parcel.
use i_dolly_backend.Database.{Database}
use i_dolly_backend.Error.{ErrorClass, plain, coded}
use i_dolly_backend.Order.{put_order}
use i_dolly_backend.Prelude.{Bool, false, ◌&&◌, not, Option, none, some, ◌==◌, find, update}
use i_dolly_backend.Schema.{OrderStatus, ShippingStatus, is_unshipped, is_cancelled_shipping}
use i_dolly_backend.Session.{Service, pure, query, found, raise_if, modify, commit, ◌>>=◌, ◌>>◌}
use i_dolly_backend.Tables.{Uuid, Time, Order, Shipping}

abbrev pub find_shipping : Uuid → Database → Option Shipping
find_shipping order_id db = find (λ x. x.order_id == order_id) db.shipping_statuses

-- OrderService.fetch_single_placed_order
abbrev pub find_order_of : Uuid → Uuid → Database → Option Order
find_order_of user_id order_id db = find (λ o. o.id == order_id && o.user_id == user_id) db.orders

abbrev pub set_shipping : Uuid → (Shipping → Shipping) → Database → Database
set_shipping order_id f db = record db {
  shipping_statuses = update (λ x. x.order_id == order_id) f db.shipping_statuses;
}

-- `not order.shippingstatus or order.shippingstatus.status not in (pending, processing)`
abbrev pub is_cancellable : Option Shipping → Bool
is_cancellable none = false
is_cancellable (some x) = is_unshipped x.status

-- OrderService.cancel_placed_order
unfoldable pub cancel_placed_order : Uuid → Uuid → Service Order
cancel_placed_order user_id order_id = do
  order ← found (plain ErrorClass.not_found) (← query (find_order_of user_id order_id))
  raise_if (coded ErrorClass.bad_request "order_already_shipped")
      (not (is_cancellable (← query (find_shipping order.id))))
  let order' : Order = record order { status = OrderStatus.cancelled }
  modify (put_order order')
  modify (set_shipping order.id (λ x. record x { status = ShippingStatus.cancelled }))
  commit
  pure order'

-- OrderService.update_shipping_status
unfoldable pub update_shipping_status : Time → ShippingStatus → Uuid → Service Shipping
update_shipping_status now new_status order_id = do
  shipping ← found (plain ErrorClass.not_found) (← query (find_shipping order_id))
  raise_if (coded ErrorClass.bad_request "order_cancelled") (is_cancelled_shipping shipping.status)
  modify (set_shipping order_id (λ x. record x { status = new_status; updated_at = now }))
  commit
  pure (record shipping { status = new_status; updated_at = now })
