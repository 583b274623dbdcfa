-- ===== src/Ticket/Tests.antt =====
-- The sale of tickets, run on the small database.
use i_dolly_backend.Error.{Error, ErrorClass, plain}
use i_dolly_backend.Fixtures.{db, mock_data, paypal_data, request, tier_of, won_ticket}
use i_dolly_backend.Payment.{
  charge_by, create_ticket_payment, insert_payment, record_ticket_payment, ticket_status_after,
}
use i_dolly_backend.Payment.Outcome.{Recorded, create_ticket_payment-ok}
use i_dolly_backend.Prelude.{◌≡◌, arith, false, none, refl, some, true}
use i_dolly_backend.Rows.{insert_ticket, sell_seat}
use i_dolly_backend.Schema.{PaymentGateway, PaymentStatus, SaleMethod, TicketStatus}
use i_dolly_backend.Session.{◌>>=◌, err, ok, start, start_on}
use i_dolly_backend.Session.Settled.{Outcome}
use i_dolly_backend.Session.Invariant.{Holds}
use i_dolly_backend.Tables.{Payment, Ticket, TicketType}
use i_dolly_backend.Tax.{with_tax}
use i_dolly_backend.Ticket.{
  check_direct_sale, checkout_ticket, checkout_won_ticket, confirm_direct_sale, direct_ticket,
  existing_live_ticket, has_unresolved_lottery_entry, is_on_sale,
}
use i_dolly_backend.Ticket.Admin.{add_ticket}
use i_dolly_backend.Ticket.Atomic.{checkout_ticket_atomic}
use i_dolly_backend.Ticket.Deadline.{Overdue, checkout_won_ticket-Overdue, released}
use i_dolly_backend.Ticket.Limit.{OneTicketEach, add_ticket-OneTicketEach}
use i_dolly_backend.Ticket.Outcome.{Sellable, checkout_ticket-Sellable}
use i_dolly_backend.Trigger.{
  enforce_fan_only_purchase, enforce_one_ticket_per_concert, ticket_triggers,
}

abbrev direct_tier : TicketType
direct_tier = tier_of 12 6 2 1 SaleMethod.direct

abbrev overdue_tier : TicketType
overdue_tier = tier_of 13 5 1 1 SaleMethod.lottery

abbrev overdue_ticket : Ticket
overdue_ticket = won_ticket 40 13 1 TicketStatus.pending_payment

abbrev bought_ticket : Ticket
bought_ticket = record (direct_ticket request 1 12) {
  status = TicketStatus.paid;
  payment_id = some 203;
}

bought :
    checkout_ticket request 1 12 (mock_data 5500) (start db)
    ≡ (ok bought_ticket, (checkout_ticket request 1 12 (mock_data 5500) (start db)).1)
unfolding checkout_ticket check_direct_sale confirm_direct_sale insert_ticket sell_seat
    create_ticket_payment record_ticket_payment insert_payment charge_by ticket_status_after
    existing_live_ticket has_unresolved_lottery_entry is_on_sale with_tax ticket_triggers
    enforce_fan_only_purchase enforce_one_ticket_per_concert ◌>>=◌
bought = refl

checkout_ticket-Sellable_example :
    (tier : TicketType) × Sellable request 1 12 (mock_data 5500) db tier
checkout_ticket-Sellable_example =
    checkout_ticket-Sellable request 1 12 (mock_data 5500) (start db)
      (checkout_ticket request 1 12 (mock_data 5500) (start db)).1 bought_ticket bought

-- Redis fails after the commit.
unconfirmed :
    (checkout_ticket request 1 12 (mock_data 5500) (start_on (λ _. false) true db)).0
    ≡ err (plain ErrorClass.redis_error)
unfolding checkout_ticket check_direct_sale confirm_direct_sale insert_ticket sell_seat
    create_ticket_payment record_ticket_payment insert_payment charge_by ticket_status_after
    existing_live_ticket has_unresolved_lottery_entry is_on_sale with_tax ticket_triggers
    enforce_fan_only_purchase enforce_one_ticket_per_concert ◌>>=◌
unconfirmed = refl

checkout_ticket_atomic_example :
    Outcome (λ x. x) (checkout_ticket request 1 12 (mock_data 5500)) (start_on (λ _. false) true db)
checkout_ticket_atomic_example =
    checkout_ticket_atomic request 1 12 (mock_data 5500) (start_on (λ _. false) true db)
      (plain ErrorClass.redis_error) unconfirmed

overdue : Overdue request 1 40 (mock_data 5500) (start db) overdue_ticket overdue_tier
overdue = record {
  fresh_key = refl;
  own = refl;
  seen = refl;
  lottery = refl;
  waits = refl;
  past = refl;
  sold = omega arith;
  within = omega arith;
}

checkout_won_ticket-Overdue_example :
    let s' = (checkout_won_ticket request 1 40 (mock_data 5500) (start db)).1 in
    (s'.committed ≡ released overdue_ticket overdue_tier db)
    × ((e : Error) × (checkout_won_ticket request 2 40 (paypal_data 10) s' ≡ (err e, s')))
checkout_won_ticket-Overdue_example =
    checkout_won_ticket-Overdue request request 1 2 40 (mock_data 5500) (paypal_data 10) (start db)
      overdue_ticket overdue_tier overdue

one_each : OneTicketEach db
one_each = record { keyed = λ k. ground arith; one = λ u k. ground arith }

add_ticket-OneTicketEach_example : Holds OneTicketEach (add_ticket 42 12 2 none (start db)).1
add_ticket-OneTicketEach_example =
    add_ticket-OneTicketEach 42 12 2 none (start db) (one_each, one_each)

abbrev payment : Payment
payment = record {
  id = 203;
  order_id = none;
  ticket_id = some 40;
  user_id = 1;
  amount = 5500;
  status = PaymentStatus.success;
  payment_gateway = PaymentGateway.mock;
  is_paid = true;
  pg_order_id = some 204;
  pg_payment_id = some 205;
  idempotency_key = 300;
}

abbrev paid_ticket : Ticket
paid_ticket = record overdue_ticket { status = TicketStatus.paid; payment_id = some 203 }

paid : create_ticket_payment request 1 overdue_ticket (mock_data 5500) (start db) ≡ (
  ok (payment, paid_ticket),
  (create_ticket_payment request 1 overdue_ticket (mock_data 5500) (start db)).1,
)
unfolding create_ticket_payment record_ticket_payment insert_payment charge_by ticket_status_after
    ◌>>=◌
paid = refl

create_ticket_payment-ok_example :
    Recorded request 1 overdue_ticket
      (mock_data 5500)
      PaymentStatus.success
      (start db)
      (create_ticket_payment request 1 overdue_ticket (mock_data 5500) (start db)).1
      payment
      paid_ticket
create_ticket_payment-ok_example =
    create_ticket_payment-ok request 1 overdue_ticket (mock_data 5500) (start db)
      (create_ticket_payment request 1 overdue_ticket (mock_data 5500) (start db)).1 payment
      paid_ticket paid
