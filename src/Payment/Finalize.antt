-- ===== src/Payment/Finalize.antt =====
-- PaymentService.finalize_paypal_payment for the payment of a ticket: PayPal captures the order
-- that the buyer has approved. `pure none` is `return None`.
use i_dolly_backend.Database.{Database}
use i_dolly_backend.Error.{ErrorClass, plain}
use i_dolly_backend.Notification.{notice}
use i_dolly_backend.Payment.{Request}
use i_dolly_backend.Prelude.{
  Bool, true, false, ◌&&◌, ◌||◌, not, Option, none, some, if◌then◌else◌, ◌==◌, leb, update, is_some,
}
use i_dolly_backend.Rows.{find_ticket_type, put_ticket, add_notification, sell_seat}
use i_dolly_backend.Schema.{
  PaymentStatus, TicketStatus, SaleMethod, NotificationType, is_pending_payment, is_direct,
}
use i_dolly_backend.Session.{
  Service, Effect, pure, query, found, modify, commit, emit, send, when, ◌>>=◌, ◌>>◌,
}
use i_dolly_backend.Tables.{Uuid, Ticket, TicketType, Payment}
use i_dolly_backend.Ticket.{is_past, expire_ticket}

abbrev pub is_pg_order : Uuid → Payment → Bool
is_pg_order k p = elim p.pg_order_id [ none ↦ false | some j ↦ j == k ]

-- `user_id and row.user_id != user_id`
abbrev pub is_foreign : Option Uuid → Uuid → Bool
is_foreign none owner = false
is_foreign (some user_id) owner = not (owner == user_id)

abbrev pub put_payment : Payment → Database → Database
put_payment p db = record db { payments = update (λ x. x.id == p.id) (λ _. p) db.payments }

-- The payment after a capture: `some` holds the capture id of a completed one, if it has one.
abbrev pub captured_payment : Payment → Option (Option Uuid) → Payment
captured_payment p (some capture_id) = record p {
  status = PaymentStatus.success;
  is_paid = true;
  pg_payment_id = capture_id;
}
captured_payment p none = record p { status = PaymentStatus.failed }

abbrev pub captured_ticket : Payment → SaleMethod → Option (Option Uuid) → Ticket → Ticket
captured_ticket p method (some capture_id) t = record t {
  status = TicketStatus.paid;
  payment_id = some p.id;
}
captured_ticket p SaleMethod.direct none t = record t { status = TicketStatus.cancelled }
captured_ticket p SaleMethod.lottery none t = t

-- The seat and the notification of a completed capture.
unfoldable pub confirm_ticket : Ticket → TicketType → SaleMethod → Service (Unit {0})
confirm_ticket t tt SaleMethod.direct = do
  sell_seat tt
  modify (
      add_notification
        (record (notice t.user_id NotificationType.ticket_confirmation) { ticket_id = some t.id }))
confirm_ticket t tt SaleMethod.lottery = modify (
    add_notification (record (notice t.user_id NotificationType.lottery_payment_confirmation) {
      ticket_id = some t.id;
    }))

-- From the capture to the end.
unfoldable pub capture_ticket :
    Request → Uuid → Payment → Ticket → TicketType → Service (Option Payment)
capture_ticket req pg_order_id payment ticket tier = do
  emit (Effect.capture_order pg_order_id)
  capture ← found (plain ErrorClass.gateway_error) (req.capture_order pg_order_id)
  modify (put_payment (captured_payment payment capture))
  modify (put_ticket (captured_ticket payment tier.sale_method capture ticket))
  when (is_some capture) (confirm_ticket ticket tier tier.sale_method)
  commit
  when (is_some capture) (send (Effect.delete_cached_concert_detail tier.concert_id))
  pure (some (captured_payment payment capture))

-- The checks on the ticket type, and the deadline of a lottery win.
unfoldable pub finalize_for_tier :
    Request → Uuid → Payment → Ticket → Option TicketType → Service (Option Payment)
finalize_for_tier req pg_order_id payment ticket none = pure none
finalize_for_tier req pg_order_id payment ticket (some tier) =
    if is_direct tier.sale_method && leb tier.total_quantity tier.sold_quantity
    then pure none
    else (if not (is_direct tier.sale_method) && is_past ticket.payment_deadline_at req.now
        then (do expire_ticket ticket tier; pure none)
        else capture_ticket req pg_order_id payment ticket tier)

-- The checks on the ticket.
unfoldable pub finalize_ticket :
    Request → Uuid → Option Uuid → Payment → Option Ticket → Service (Option Payment)
finalize_ticket req pg_order_id user_id payment none = pure none
finalize_ticket req pg_order_id user_id payment (some ticket) =
    if not (is_pending_payment ticket.status) || is_foreign user_id ticket.user_id
    then pure none
    else (do
      tier ← query (find_ticket_type ticket.ticket_type_id)
      finalize_for_tier req pg_order_id payment ticket tier)
