-- ===== src/Order/Once.antt =====
-- PaymentService.finalize_paypal_payment called twice: PayPal's order is captured once.
use i_dolly_backend.Order.{Lines, is_empty_lines, is_ordered, is_short}
use i_dolly_backend.Order.Finalize.{
  capture_order, finalize_for, finalize_found, finalize_order, finalize_paypal_payment, order_lines,
  put_shipping,
}
use i_dolly_backend.Payment.{Request}
use i_dolly_backend.Payment.Finalize.{
  capture_ticket, finalize_for_tier, finalize_ticket, is_foreign, is_pg_order,
}
use i_dolly_backend.Prelude.{
  ◌≡◌, refl, Bool, true, false, not, ◌&&◌, ◌||◌, Option, none, some, Bool-cases, any, arith, filter,
  find, if◌then◌else◌, inl, inr, is_some, leb,
}
use i_dolly_backend.Schema.{is_direct, is_pending_order, is_pending_payment, is_pending_payment_row}
use i_dolly_backend.Session.{Service, Session, ok, pure, ◌>>=◌}
use i_dolly_backend.Session.Outcome.{bind-ok, emit-by, found-by, modify-by, pure-ok, query-by}
use i_dolly_backend.Session.View.{KeepsView-bind, KeepsView-ok, KeepsView-when, view_rules}
use i_dolly_backend.Tables.{Order, Payment, Ticket, TicketType, Uuid}
use i_dolly_backend.Ticket.{expire_ticket, is_past}
use i_dolly_backend.Order.Settled.{
  Settled, confirm_ticket-Settled, modify-Settled, put_payment-Settled,
}

capture_ticket-Settled :
    (req : Request) (k : Uuid) (p : Payment) (ticket : Ticket) (tier : TicketType) (s s' : Session)
    (r : Option Payment)
    → find (is_pg_order k) s.view.payments ≡ some p
    → capture_ticket req k p ticket tier s ≡ (ok r, s')
    → Settled k s'.view
unfolding capture_ticket
capture_ticket-Settled req k p ticket tier s s' r seen h = emit-by _ _ s s' r h λ h₁.
    found-by _ _ _ _ s' r h₁ λ capture captured h₂. modify-by _ _ _ s' r h₂ λ h₃.
      KeepsView-ok (Settled k) _ _ s' (ok r)
        (KeepsView-bind (Settled k) _ _ (modify-Settled k _ (λ _. refl))
          λ _. search (view_rules, confirm_ticket-Settled) depth 30)
        h₃ (put_payment-Settled k p capture s.view seen)

capture_order-Settled :
    (req : Request) (k : Uuid) (p : Payment) (order : Order) (lines : Lines) (s s' : Session)
    (r : Option Payment)
    → find (is_pg_order k) s.view.payments ≡ some p
    → capture_order req k p order lines s ≡ (ok r, s')
    → Settled k s'.view
unfolding capture_order put_shipping
capture_order-Settled req k p order lines s s' r seen h = emit-by _ _ s s' r h λ h₁.
    found-by _ _ _ _ s' r h₁ λ capture captured h₂. modify-by _ _ _ s' r h₂ λ h₃.
      KeepsView-ok (Settled k) _ _ s' (ok r)
        (KeepsView-bind (Settled k) _ _
          (KeepsView-when (Settled k) _ _ (
            KeepsView-bind (Settled k) _ _ (modify-Settled k _ (λ _. refl)) λ _.
              KeepsView-bind (Settled k) _ _ (modify-Settled k _ (λ _. refl))
                λ _. modify-Settled k _ (λ _. refl)))
          λ _. KeepsView-bind (Settled k) _ _ (modify-Settled k _ (λ _. refl)) λ _.
            KeepsView-bind (Settled k) _ _ (modify-Settled k _ (λ _. refl))
              λ _. search view_rules depth 30)
        h₃ (put_payment-Settled k p capture s.view seen)

-- `pure none` returns no payment.
pure_none : {C : Type 0} (s s' : Session) (p : Payment) → pure none s ≡ (ok (some p), s') → C
pure_none s s' p h = let (e, _) = pure-ok none (some p) s s' h in absurd (ground (arith, e))

-- `if b: return None`
unless-by :
    {C : Type 0} (b : Bool) (m : Service (Option Payment)) (s s' : Session) (p : Payment)
    → (if b then pure none else m) s ≡ (ok (some p), s')
    → (m s ≡ (ok (some p), s') → C)
    → C
unless-by true m s s' p h k = pure_none s s' p h
unless-by false m s s' p h k = k h

finalize_for_tier-Settled :
    (req : Request) (k : Uuid) (p q : Payment) (ticket : Ticket) (tier : Option TicketType)
    (s s' : Session)
    → find (is_pg_order k) s.view.payments ≡ some p
    → finalize_for_tier req k p ticket tier s ≡ (ok (some q), s')
    → Settled k s'.view
unfolding finalize_for_tier
finalize_for_tier-Settled req k p q ticket none s s' seen h = pure_none s s' q h
finalize_for_tier-Settled req k p q ticket (some tier) s s' seen h =
    elim (Bool-cases (is_direct tier.sale_method && leb tier.total_quantity tier.sold_quantity)) [
      | inl sold_out ↦ pure_none s s' q (rw sold_out at h)
      | inr left ↦
          elim (Bool-cases
            (not (is_direct tier.sale_method) && is_past ticket.payment_deadline_at req.now)) [
              | inl late ↦
                  let (_, s₂, _, h₂) =
                    bind-ok (expire_ticket ticket tier) _ s s' (some q) (rw (left, late) at h) in
                  pure_none s₂ s' q h₂
              | inr due ↦
                  capture_ticket-Settled req k p ticket tier s s' (some q) seen
                    (rw (left, due) at h)
            ]
    ]

finalize_ticket-Settled :
    (req : Request) (k : Uuid) (user_id : Option Uuid) (p q : Payment) (ticket : Option Ticket)
    (s s' : Session)
    → find (is_pg_order k) s.view.payments ≡ some p
    → finalize_ticket req k user_id p ticket s ≡ (ok (some q), s')
    → Settled k s'.view
unfolding finalize_ticket
finalize_ticket-Settled req k user_id p q none s s' seen h = pure_none s s' q h
finalize_ticket-Settled req k user_id p q (some ticket) s s' seen h =
    elim (Bool-cases
      (not (is_pending_payment ticket.status) || is_foreign user_id ticket.user_id)) [
        | inl refused ↦ pure_none s s' q (rw refused at h)
        | inr passes ↦
            query-by _ _ s s' (some q) (rw passes at h)
              λ h₁. finalize_for_tier-Settled req k p q ticket _ s s' seen h₁
      ]

finalize_order-Settled :
    (req : Request) (k : Uuid) (user_id : Option Uuid) (p q : Payment) (order : Option Order)
    (s s' : Session)
    → find (is_pg_order k) s.view.payments ≡ some p
    → finalize_order req k user_id p order s ≡ (ok (some q), s')
    → Settled k s'.view
unfolding finalize_order
finalize_order-Settled req k user_id p q none s s' seen h = pure_none s s' q h
finalize_order-Settled req k user_id p q (some order) s s' seen h =
    let lines = order_lines order.id s.view in
    let short = any (is_short lines) (filter (is_ordered lines) s.view.products) in
    elim (Bool-cases (is_foreign user_id order.user_id || not (is_pending_order order.status))) [
      | inl refused ↦ pure_none s s' q (rw refused at h)
      | inr passes ↦ query-by _ _ s s' (some q) (rw passes at h) λ h₁.
          query-by _ _ s s' (some q) h₁ λ h₂. query-by _ _ s s' (some q) h₂ λ h₃.
            unless-by
              (is_empty_lines lines || not (any (is_ordered lines) s.view.products) || short)
              (capture_order req k p order lines) s s' q h₃
              λ h₄. capture_order-Settled req k p order lines s s' (some q) seen h₄
    ]

-- A payment is for a ticket or for an order.
abbrev pub has_target : Payment → Bool
has_target p = is_some p.ticket_id || is_some p.order_id

finalize_for-Settled :
    (req : Request) (k : Uuid) (user_id : Option Uuid) (p q : Payment)
    (ticket_id order_id : Option Uuid) (s s' : Session)
    → find (is_pg_order k) s.view.payments ≡ some p
    → (is_some ticket_id || is_some order_id) ≡ true
    → finalize_for req k user_id p ticket_id order_id s ≡ (ok (some q), s')
    → Settled k s'.view
unfolding finalize_for
finalize_for-Settled req k user_id p q (some ticket_id) order_id s s' seen target h =
    query-by _ _ s s' (some q) h λ h₁. finalize_ticket-Settled req k user_id p q _ s s' seen h₁
finalize_for-Settled req k user_id p q none (some order_id) s s' seen target h =
    query-by _ _ s s' (some q) h λ h₁. finalize_order-Settled req k user_id p q _ s s' seen h₁
finalize_for-Settled req k user_id p q none none s s' seen target h =
    absurd (ground (arith, target))

finalize_found-Settled :
    (req : Request) (k : Uuid) (user_id : Option Uuid) (p q : Payment) (s s' : Session)
    → find (is_pg_order k) s.view.payments ≡ some p
    → has_target p ≡ true
    → finalize_found req k user_id (some p) s ≡ (ok (some q), s')
    → Settled k s'.view
unfolding finalize_found
finalize_found-Settled req k user_id p q s s' seen target h =
    unless-by (not (is_pending_payment_row p.status) || is_foreign user_id p.user_id)
      (finalize_for req k user_id p p.ticket_id p.order_id) s s' q h
      λ h₁. finalize_for-Settled req k user_id p q p.ticket_id p.order_id s s' seen target h₁

-- A settled payment is refused.
Settled-refused :
    (req : Request) (k : Uuid) (user_id : Option Uuid) (s : Session)
    → Settled k s.view
    → finalize_paypal_payment req k user_id s ≡ (ok none, s)
unfolding finalize_paypal_payment finalize_found ◌>>=◌
Settled-refused req k user_id s h = ground (arith, h.found', h.closed)

-- Once a payment at PayPal for a ticket or an order has been finalized, whether its capture has
-- completed or not, any later
-- call for the same PayPal order, by whomever, returns None and changes and captures nothing.
pub finalize_paypal_payment_again :
    (req later : Request) (k : Uuid) (user_id caller : Option Uuid) (p q : Payment) (s s' : Session)
    → find (is_pg_order k) s.view.payments ≡ some p
    → has_target p ≡ true
    → finalize_paypal_payment req k user_id s ≡ (ok (some q), s')
    → finalize_paypal_payment later k caller s' ≡ (ok none, s')
unfolding finalize_paypal_payment
finalize_paypal_payment_again req later k user_id caller p q s s' seen target h =
    query-by _ _ s s' (some q) h λ h₁.
      Settled-refused later k caller s'
        (finalize_found-Settled req k user_id p q s s' seen target (rw seen at h₁))
