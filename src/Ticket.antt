-- ===== src/Ticket.antt =====
-- app/services/events/ticket_service.py.
pub mod Atomic
pub mod Outcome
pub mod Admin
pub mod Limit
pub mod Deadline
pub mod Refusal
mod Tests
use i_dolly_backend.Database.{Database}
use i_dolly_backend.Error.{ErrorClass, plain, coded}
use i_dolly_backend.Notification.{notice}
use i_dolly_backend.Payment.{
  Request, CheckoutData, create_ticket_payment, has_idempotency_key, charge_by, insert_payment,
}
use i_dolly_backend.Prelude.{
  ℕ, ◌+◌, ◌-◌, Bool, true, false, ◌&&◌, not, Option, none, some, List, [], ◌∷◌, ◌++◌, if◌then◌else◌,
  ◌==◌, ltb, leb, any, find, filter, delete, is_some,
}
use i_dolly_backend.Rows.{
  find_user, find_concert, find_ticket_type, find_lottery_entry, find_ticket, same_company,
  put_ticket, add_notification, insert_ticket, sell_seat, release_seat,
}
use i_dolly_backend.Schema.{
  TicketStatus, SaleMethod, NotificationType, is_fan, is_manager, is_direct, is_pending_payment,
  is_paid_ticket, is_open_sale, is_unresolved, is_success,
}
use i_dolly_backend.Session.{
  Service, Effect, pure, raise, query, found, raise_if, modify, commit, send, when, ◌>>=◌, ◌>>◌,
}
use i_dolly_backend.Tables.{Uuid, Time, User, TicketType, Ticket, Payment}
use i_dolly_backend.Tax.{with_tax}
use i_dolly_backend.Trigger.{in_concert, is_live_ticket_of}

-- TicketService._existing_live_ticket
unfoldable pub existing_live_ticket : Uuid → Uuid → Database → Option Ticket
existing_live_ticket user_id concert_id db =
    find (is_live_ticket_of db user_id concert_id) db.tickets

abbrev pub campaign_in_concert : Database → Uuid → Uuid → Bool
campaign_in_concert db concert_id campaign_id =
    any (λ c. c.id == campaign_id && in_concert db concert_id c.ticket_type_id) db.lottery_campaigns

-- TicketService._unresolved_lottery_entry
unfoldable pub has_unresolved_lottery_entry : Uuid → Uuid → Database → Bool
has_unresolved_lottery_entry user_id concert_id db =
    any
      (λ e.
        e.user_id == user_id
        && campaign_in_concert db concert_id e.campaign_id
        && is_unresolved e.status)
      db.lottery_entries

-- The DirectSaleCampaign query of checkout_ticket.
unfoldable pub is_on_sale : Uuid → Time → Database → Bool
is_on_sale ticket_type_id now db =
    any
      (λ c.
        c.ticket_type_id == ticket_type_id
        && is_open_sale c.status
        && leb c.sale_start_at now
        && leb now c.sale_end_at)
      db.direct_sale_campaigns

abbrev pub is_fan_user : Option User → Bool
is_fan_user none = false
is_fan_user (some u) = is_fan u.role

abbrev pub direct_ticket : Request → Uuid → Uuid → Ticket
direct_ticket req user_id ticket_type_id = record {
  id = req.new_ticket_id;
  ticket_type_id = ticket_type_id;
  user_id = user_id;
  lottery_entry_id = none;
  payment_id = none;
  status = TicketStatus.pending_payment;
  issued_code = none;
  payment_deadline_at = none;
}

-- The checks of checkout_ticket, up to the first write: the ticket type that is sold.
unfoldable pub check_direct_sale : Request → Uuid → Uuid → CheckoutData → Service TicketType
unfolding existing_live_ticket has_unresolved_lottery_entry is_on_sale
check_direct_sale req user_id ticket_type_id data' = do
  raise_if (plain ErrorClass.fan_only_purchase) (not (is_fan_user (← query (find_user user_id))))
  raise_if (plain ErrorClass.duplicate_idempotency_key)
      (← query (has_idempotency_key data'.idempotency_key))
  ticket_type ←
      found (plain ErrorClass.ticket_type_not_found) (← query (find_ticket_type ticket_type_id))
  raise_if (plain ErrorClass.wrong_sale_method) (not (is_direct ticket_type.sale_method))
  raise_if (plain ErrorClass.not_on_sale) (not (← query (is_on_sale ticket_type.id req.now)))
  raise_if (plain ErrorClass.insufficient_ticket_stock)
      (leb ticket_type.total_quantity ticket_type.sold_quantity)
  raise_if (plain ErrorClass.duplicate_concert_ticket)
      (is_some (← query (existing_live_ticket user_id ticket_type.concert_id)))
  raise_if (plain ErrorClass.lottery_entry_unresolved)
      (← query (has_unresolved_lottery_entry user_id ticket_type.concert_id))
  raise_if (plain ErrorClass.payment_amount_mismatch)
      (not (data'.amount == with_tax ticket_type.price))
  pure ticket_type

-- `if confirmed` in checkout_ticket: the seat and the notification.
unfoldable pub confirm_direct_sale : Uuid → Ticket → TicketType → Service (Unit {0})
confirm_direct_sale user_id ticket ticket_type = do
  sell_seat ticket_type
  modify (
      add_notification (record (notice user_id NotificationType.ticket_confirmation) {
        ticket_id = some ticket.id;
      }))

-- TicketService.checkout_ticket
unfoldable pub checkout_ticket : Request → Uuid → Uuid → CheckoutData → Service Ticket
checkout_ticket req user_id ticket_type_id data' = do
  ticket_type ← check_direct_sale req user_id ticket_type_id data'
  insert_ticket (direct_ticket req user_id ticket_type.id)
  (payment, ticket) ←
      create_ticket_payment req user_id (direct_ticket req user_id ticket_type.id) data'
  let confirmed : Bool = is_success payment.status && is_paid_ticket ticket.status
  when confirmed (confirm_direct_sale user_id ticket ticket_type)
  commit
  send (Effect.delete_cached_concert_detail ticket_type.concert_id)
  when confirmed (send (Effect.ticket_confirmed_email user_id ticket.id))
  pure ticket

-- `ticket.payment_deadline_at and ticket.payment_deadline_at < now`
abbrev pub is_past : Option Time → Time → Bool
is_past none now = false
is_past (some deadline) now = ltb deadline now

-- `ticket and ticket.user_id == user_id`
abbrev pub own_ticket : Uuid → Option Ticket → Option Ticket
own_ticket user_id none = none
own_ticket user_id (some t) = if t.user_id == user_id then some t else none

-- Past the deadline: the ticket expires and its seat is released, and that is committed.
unfoldable pub expire_ticket : Ticket → TicketType → Service (Unit {0})
expire_ticket ticket ticket_type = do
  modify (put_ticket (record ticket { status = TicketStatus.expired }))
  release_seat ticket_type
  commit
  send (Effect.delete_cached_concert_detail ticket_type.concert_id)

-- TicketService.checkout_won_ticket
unfoldable pub checkout_won_ticket : Request → Uuid → Uuid → CheckoutData → Service Ticket
checkout_won_ticket req user_id ticket_id data' = do
  raise_if (plain ErrorClass.duplicate_idempotency_key)
      (← query (has_idempotency_key data'.idempotency_key))
  ticket ←
      found (plain ErrorClass.ticket_not_found)
        (own_ticket user_id (← query (find_ticket ticket_id)))
  ticket_type ←
      found (plain ErrorClass.ticket_not_payable) (← query (find_ticket_type ticket.ticket_type_id))
  raise_if (plain ErrorClass.ticket_not_payable) (is_direct ticket_type.sale_method)
  raise_if (plain ErrorClass.ticket_not_payable) (not (is_pending_payment ticket.status))
  when (is_past ticket.payment_deadline_at req.now) (do
    expire_ticket ticket ticket_type
    raise (coded ErrorClass.ticket_not_payable "payment_deadline_passed"))
  raise_if (plain ErrorClass.payment_amount_mismatch)
      (not (data'.amount == with_tax ticket_type.price))
  (payment, ticket') ← create_ticket_payment req user_id ticket data'
  let confirmed : Bool = is_success payment.status
  when confirmed (
      modify (
        add_notification (record (notice user_id NotificationType.lottery_payment_confirmation) {
          ticket_id = some ticket.id;
        })))
  commit
  user ← query (find_user user_id)
  when (confirmed && is_some user) (send (Effect.lottery_payment_confirmed_email user_id ticket.id))
  pure ticket'
