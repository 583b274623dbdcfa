-- ===== src/Order/Life.antt =====
-- OrderService.cancel_placed_order and update_shipping_status, one after the other.
use i_dolly_backend.Database.{Database}
use i_dolly_backend.Error.{ErrorClass, coded}
use i_dolly_backend.Order.Parcel.{
  cancel_placed_order, find_shipping, is_cancellable, set_shipping, update_shipping_status,
}
use i_dolly_backend.Prelude.{
  ◌≡◌, refl, sym, subst, Option-cases, arith, find-update, inl, inr, some, true, false, ==_refl,
  not,
}
use i_dolly_backend.Schema.{ShippingStatus, is_cancelled_shipping}
use i_dolly_backend.Session.{Session, err, ok, ◌>>=◌}
use i_dolly_backend.Session.Outcome.{query-by, found-by, guard-by, modify-by, commit-by, pure-ok}
use i_dolly_backend.Tables.{Order, Shipping, Time, Uuid}

pair : {A B : Type 0} {a a' : A} {b b' : B} → a ≡ a' → b ≡ b' → ◌≡◌ {A = A × B} (a, b) (a', b')
pair h k = cc

refused :
    (now : Time) (status' : ShippingStatus) (k : Uuid) (s : Session) (x : Shipping)
    → find_shipping k s.view ≡ some x
    → is_cancelled_shipping x.status ≡ true
    → update_shipping_status now status' k s
      ≡ (err (coded ErrorClass.bad_request "order_cancelled"), s)
unfolding update_shipping_status ◌>>=◌
refused now status' k s x seen cancelled = ground (arith, seen, cancelled)

-- A parcel that can still be cancelled has its row, and the cancellation marks it.
marked :
    (k : Uuid) (db : Database)
    → not (is_cancellable (find_shipping k db)) ≡ false
    → (x : Shipping) × (find_shipping k
          (set_shipping k (λ x. record x { status = ShippingStatus.cancelled }) db)
        ≡ some x)
      × (is_cancelled_shipping x.status ≡ true)
marked k db h = elim (Option-cases (find_shipping k db)) [
  | inl absent ↦ absurd (ground (arith, h, absent))
  | inr (x, seen) ↦ (
    record x { status = ShippingStatus.cancelled },
    ground (
      arith,
      seen,
      ==_refl k,
      find-update (λ x. x.order_id) k k (λ x. record x { status = ShippingStatus.cancelled })
          db.shipping_statuses (λ x. refl),
    ),
    refl,
  )
]

-- After an order has been cancelled, the next change of its parcel's status is refused, and
-- changes nothing.
pub update_shipping_status-cancelled :
    (now : Time) (status' : ShippingStatus) (user_id order_id : Uuid) (s s' : Session) (o : Order)
    → cancel_placed_order user_id order_id s ≡ (ok o, s')
    → update_shipping_status now status' o.id s'
      ≡ (err (coded ErrorClass.bad_request "order_cancelled"), s')
unfolding cancel_placed_order
update_shipping_status-cancelled now status' user_id order_id s s' o h = query-by _ _ s s' o h λ h.
    found-by _ _ _ s s' o h λ order seen h. query-by _ _ s s' o h λ h.
      guard-by _ _ _ s s' o h λ early h. modify-by _ _ _ s' o h λ h. modify-by _ _ _ s' o h λ h.
        commit-by _ _ s' o h λ h.
          let (same, now_is) = pure-ok _ o _ s' h in
          let (x, seen, done) = marked order.id s.view early in
          subst
            (λ z.
              update_shipping_status now status' z.0.id z.1
              ≡ (err (coded ErrorClass.bad_request "order_cancelled"), z.1))
            (pair same (sym now_is)) (refused now status' order.id _ x seen done)
