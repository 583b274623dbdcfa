-- ===== src/Order/Shipped.antt =====
-- OrderService.ship_order, and then cancel_placed_order on the same order.
use i_dolly_backend.Error.{ErrorClass, coded, plain}
use i_dolly_backend.Order.Parcel.{cancel_placed_order, find_order_of, find_shipping, is_cancellable}
use i_dolly_backend.Order.Ship.{ship_order}
use i_dolly_backend.Prelude.{
  ◌≡◌, refl, sym, ap, ◌∙◌, ◌&&◌, ==→eq, update, false, Option, none, some, Option-cases, arith,
  find, find-update_same, find_passes, List, inl, inr, key-find, ◌==◌,
}
use mathlib.Core.Option
use i_dolly_backend.Schema.{ShippingStatus}
use i_dolly_backend.Session.{Result, Session, err, ok, ◌>>=◌}
use i_dolly_backend.Session.Outcome.{commit-by, found-by, guard-by, modify-by, pure-ok, query-by}
use i_dolly_backend.Tables.{Order, Shipping, Time, User, Uuid}

abbrev shipped_at : Time → Shipping → Shipping
shipped_at now x = record x { status = ShippingStatus.shipped; updated_at = now }

-- What an order that is shipped leaves in the session.
ship_order-ok :
    (now : Time) (k : Uuid) (user : User) (s s' : Session) (order : Order)
    → ship_order now k user s ≡ (ok order, s')
    → (order.id ≡ k)
      × (s'.view.orders ≡ s.view.orders)
      × (s'.view.shipping_statuses
          ≡ update (λ x. x.order_id == order.id) (shipped_at now) s.view.shipping_statuses)
unfolding ship_order
ship_order-ok now k user s s' order h = query-by _ _ s s' order h λ h₁.
    found-by _ _ _ s s' order h₁ λ o seen h₂. query-by _ _ s s' order h₂ λ h₃.
      guard-by _ _ _ s s' order h₃ λ scope h₄. query-by _ _ s s' order h₄ λ h₅.
        guard-by _ _ _ s s' order h₅ λ waits h₆. modify-by _ _ s s' order h₆ λ h₇.
          modify-by _ _ _ s' order h₇ λ h₈. commit-by _ _ s' order h₈ λ h₉.
            let (same, now') = pure-ok o order _ s' h₉ in
            let own : o.id ≡ k = key-find (λ x. x.id) k s.view.orders seen in
            (
              ap (λ x. x.id) (sym same) ∙ own,
              ap (λ x. x.view.orders) now',
              rw⁻¹ same (ap (λ x. x.view.shipping_statuses) now'),
            )

-- The row of a parcel that has left cannot be cancelled.
shipped_at-is_cancellable :
    (now : Time) (o : Option Shipping) → is_cancellable (Option.map (shipped_at now) o) ≡ false
shipped_at-is_cancellable now none = refl
shipped_at-is_cancellable now (some x) = refl

-- What cancelling answers where no order of that id can be cancelled.
abbrev pub cancel_answer : Option Order → Result Order
cancel_answer none = err (plain ErrorClass.not_found)
cancel_answer (some order) = err (coded ErrorClass.bad_request "order_already_shipped")

cancel_placed_order-answer :
    (user_id k : Uuid) (s : Session)
    → is_cancellable (find_shipping k s.view) ≡ false
    → cancel_placed_order user_id k s ≡ (cancel_answer (find_order_of user_id k s.view), s)
unfolding cancel_placed_order ◌>>=◌
cancel_placed_order-answer user_id k s left = elim (Option-cases (find_order_of user_id k s.view)) [
  | inl absent ↦ ground (arith, absent)
  | inr (o, seen) ↦
      let passed = find_passes (λ x. x.id == k && x.user_id == user_id) s.view.orders seen in
      let own : o.id ≡ k = ==→eq o.id k (ground (arith, passed)) in ground (arith, seen, own, left)
]

-- Shipping writes to the one row of the order.
shipped-is_cancellable :
    (now : Time) (k id' : Uuid) (xs : List Shipping)
    → id' ≡ k
    → is_cancellable
        (find (λ x. x.order_id == k) (update (λ x. x.order_id == id') (shipped_at now) xs))
      ≡ false
shipped-is_cancellable now k id' xs own =
    let row =
      find-update_same (λ x. x.order_id == k) (λ x. x.order_id == id') (shipped_at now) xs
        (λ x. refl) in
    elim (Option-cases (find (λ x. x.order_id == k) xs)) [
      | inl absent ↦ ground (arith, row, absent)
      | inr (x, seen) ↦
          let here : x.order_id ≡ k = key-find (λ x. x.order_id) k xs seen in
          ground (arith, row, seen, own, here)
    ]

-- Once a parcel has left, cancelling its order is refused and changes nothing: with
-- order_already_shipped for the buyer, and as not found for anyone else.
pub ship_order-cancel_placed_order :
    (now : Time) (k user_id : Uuid) (user : User) (s s' : Session) (order : Order)
    → ship_order now k user s ≡ (ok order, s')
    → cancel_placed_order user_id k s' ≡ (cancel_answer (find_order_of user_id k s.view), s')
ship_order-cancel_placed_order now k user_id user s s' order h =
    let (own, orders', statuses') = ship_order-ok now k user s s' order h in
    let gone =
      ap (λ xs. is_cancellable (find (λ x. x.order_id == k) xs)) statuses'
      ∙ shipped-is_cancellable now k order.id s.view.shipping_statuses own in
    cancel_placed_order-answer user_id k s' gone
    ∙ ap (λ os. (cancel_answer (find (λ x. x.id == k && x.user_id == user_id) os), s')) orders'
