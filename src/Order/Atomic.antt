-- ===== src/Order/Atomic.antt =====
-- OrderService.checkout: what is committed when it raises.
use i_dolly_backend.Error.{Error}
use i_dolly_backend.Order.{
  check_cart, checkout, create_payment, insert_order, insert_order_item, insert_order_items,
  order_item,
}
use i_dolly_backend.Payment.{Request, CheckoutData}
use i_dolly_backend.Payment.Atomic.{Uncommitted-charge_by, Uncommitted-insert_payment}
use i_dolly_backend.Prelude.{◌≡◌, List, [], ◌∷◌}
use i_dolly_backend.Session.{Session, err}
use i_dolly_backend.Session.Atomic.{
  Uncommitted, Uncommitted-bind, Uncommitted-pure, uncommitted_rules,
}
use i_dolly_backend.Session.Invariant.{keeps_rules}
use i_dolly_backend.Session.Settled.{
  AllOrNothing, AllOrNothing-bind, AllOrNothing-commit, Outcome, calm_rules,
}
use i_dolly_backend.Tables.{Cart, Order, OrderItem, Uuid}

Uncommitted-check_cart :
    (user_id address_id : Uuid) (data' : CheckoutData)
    → Uncommitted (check_cart user_id address_id data')
unfolding check_cart
Uncommitted-check_cart user_id address_id data' = search uncommitted_rules depth 40

Uncommitted-insert_order : (o : Order) → Uncommitted (insert_order o)
unfolding insert_order
Uncommitted-insert_order o = search uncommitted_rules

Uncommitted-insert_order_item : (i : OrderItem) → Uncommitted (insert_order_item i)
unfolding insert_order_item
Uncommitted-insert_order_item i = search uncommitted_rules

Uncommitted-insert_order_items :
    (order_id : Uuid) (items : List Cart) → Uncommitted (insert_order_items order_id items)
unfolding insert_order_items
Uncommitted-insert_order_items order_id [] = Uncommitted-pure _
Uncommitted-insert_order_items order_id (item ∷ items) =
    Uncommitted-bind _ _ (Uncommitted-insert_order_item (order_item order_id item))
      (λ _. Uncommitted-insert_order_items order_id items)

Uncommitted-create_payment :
    (req : Request) (user_id : Uuid) (order : Order) (data' : CheckoutData)
    → Uncommitted (create_payment req user_id order data')
unfolding create_payment
Uncommitted-create_payment req user_id order data' =
    search (uncommitted_rules, Uncommitted-charge_by, Uncommitted-insert_payment) depth 20

checkout-AllOrNothing :
    (req : Request) (user_id address_id : Uuid) (data' : CheckoutData)
    → AllOrNothing (λ db. db) (checkout req user_id address_id data')
unfolding checkout
checkout-AllOrNothing req user_id address_id data' =
    search
      (
        uncommitted_rules, calm_rules, keeps_rules, AllOrNothing-bind, AllOrNothing-commit,
        Uncommitted-check_cart, Uncommitted-insert_order, Uncommitted-insert_order_items,
        Uncommitted-create_payment,
      )
      depth 40

-- The checkout of a cart that raises has either committed nothing, or exactly what the same
-- checkout commits while Redis is up, when it returns the order: Redis has failed after the commit.
pub checkout_atomic :
    (req : Request) (user_id address_id : Uuid) (data' : CheckoutData) (s : Session) (e : Error)
    → (checkout req user_id address_id data' s).0 ≡ err e
    → Outcome (λ db. db) (checkout req user_id address_id data') s
checkout_atomic req user_id address_id data' s e h =
    (checkout-AllOrNothing req user_id address_id data').at s e h
