-- ===== src/Order/Ship.antt =====
-- OrderService.ship_order and the scope of the managers that may call it.
use i_dolly_backend.Catalogue.Pages.{resolve_product_company_ids}
use i_dolly_backend.Database.{Database}
use i_dolly_backend.Error.{ErrorClass, coded, plain}
use i_dolly_backend.Notification.{notice}
use i_dolly_backend.Order.Parcel.{find_shipping, is_cancellable, set_shipping}
use i_dolly_backend.Prelude.{
  ℕ, Bool, true, false, not, ◌&&◌, ◌||◌, Option, none, some, List, [], ◌∷◌, ◌==◌, any, filter, find,
}
use i_dolly_backend.Rows.{add_notification, same_company}
use i_dolly_backend.Schema.{NotificationType, ShippingStatus, is_manager}
use i_dolly_backend.Session.{Service, pure, query, found, raise_if, modify, commit, ◌>>=◌, ◌>>◌}
use i_dolly_backend.Tables.{Order, Product, Time, User, Uuid}

-- `company_id in (None, current_user.company_id)`
abbrev pub is_own_or_none : User → Option Uuid → Bool
is_own_or_none current_user none = true
is_own_or_none current_user (some company_id') =
    same_company (some company_id') current_user.company_id

-- `any(... for company_id in company_by_product.values())`
abbrev pub has_own : User → List (ℕ × Option Uuid) → Bool
has_own current_user [] = false
has_own current_user ((k, company_id') ∷ m) =
    is_own_or_none current_user company_id' || has_own current_user m

abbrev pub products_of_order : Uuid → Database → List Product
products_of_order order_id' db =
    filter (λ p. any (λ i. i.order_id == order_id' && i.product_id == p.id) db.order_items)
      db.products

-- OrderService._manager_order_scope_violation
unfoldable pub manager_order_scope_violation : Order → User → Database → Bool
manager_order_scope_violation order current_user db =
    is_manager current_user.role
    && not (has_own current_user (resolve_product_company_ids (products_of_order order.id db) db))

-- OrderService.ship_order
unfoldable pub ship_order : Time → Uuid → User → Service Order
ship_order now order_id' current_user = do
  order ←
      found (plain ErrorClass.not_found) (← query (λ db. find (λ o. o.id == order_id') db.orders))
  raise_if (plain ErrorClass.forbidden) (← query (manager_order_scope_violation order current_user))
  raise_if (coded ErrorClass.bad_request "invalid_shipping_transition")
      (not (is_cancellable (← query (find_shipping order.id))))
  modify
      (set_shipping order.id (λ x. record x { status = ShippingStatus.shipped; updated_at = now }))
  modify (
      add_notification
        (record (notice order.user_id NotificationType.order_shipped) { order_id = some order.id }))
  commit
  pure order
