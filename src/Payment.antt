-- ===== src/Payment.antt =====
-- app/services/marketplace/payment_service.py: the payment of a ticket.
pub mod Atomic
pub mod Outcome
pub mod Finalize
use i_dolly_backend.Database.{Database}
use i_dolly_backend.Error.{ErrorClass, plain}
use i_dolly_backend.Prelude.{
  Bool, List, Option, [], any, false, filter, find, if◌then◌else◌, none, not, some, true, ℕ, ◌&&◌,
  ◌++◌, ◌==◌, ◌∷◌,
}
use i_dolly_backend.Rows.{find_ticket_type, put_ticket}
use i_dolly_backend.Schema.{
  PaymentStatus, PaymentGateway, TicketStatus, SaleMethod, is_direct, is_success,
}
use i_dolly_backend.Session.{
  Service, found, modify, pure, query, raise, raise_if, write, ◌>>=◌, ◌>>◌,
}
use i_dolly_backend.Tables.{Uuid, Time, Ticket, Payment}

-- What a checkout takes from outside: the time, the ids that `uuid.uuid4` draws, and PayPal's
-- answers. `create_order` gives the id of the order, or raises; `capture_order` gives the status
-- COMPLETED with the capture id that the response holds, if it does, another status (`some none`),
-- or raises.
pub record Request : Type 0 where
  pub now : Time
  pub new_ticket_id : Uuid
  pub new_order_id : Uuid
  pub new_payment_id : Uuid
  pub mock_order_id : Uuid
  pub mock_payment_id : Uuid
  pub create_order : ℕ → Option Uuid
  pub capture_order : Uuid → Option (Option (Option Uuid))

-- The fields that TicketCheckoutCreate, WonTicketCheckoutCreate and PaymentCreate share.
pub record CheckoutData : Type 0 where
  pub amount : ℕ
  pub gateway : PaymentGateway
  pub simulate_succ : Option Bool
  pub idempotency_key : Uuid

-- What the gateway's branch sets: the status and the gateway's ids.
pub record Charge : Type 0 where
  pub status : PaymentStatus
  pub pg_order_id : Option Uuid
  pub pg_payment_id : Option Uuid

-- `if data.simulate_succ`; None is false.
abbrev pub is_true : Option Bool → Bool
is_true (some true) = true
is_true _ = false

abbrev pub mock_charge : Request → Bool → Charge
mock_charge req true = record {
  status = PaymentStatus.success;
  pg_order_id = some req.mock_order_id;
  pg_payment_id = some req.mock_payment_id;
}
mock_charge req false = record {
  status = PaymentStatus.failed;
  pg_order_id = none;
  pg_payment_id = none;
}

abbrev pub paypal_charge : Uuid → Charge
paypal_charge order_id = record {
  status = PaymentStatus.pending;
  pg_order_id = some order_id;
  pg_payment_id = none;
}

unfoldable pub charge_by : Request → CheckoutData → PaymentGateway → Service Charge
charge_by req data' PaymentGateway.mock = pure (mock_charge req (is_true data'.simulate_succ))
charge_by req data' PaymentGateway.paypal = do
  order_id ← found (plain ErrorClass.gateway_error) (req.create_order data'.amount)
  pure (paypal_charge order_id)

-- The ticket's status after the charge. A lottery win stays payable when the charge fails.
unfoldable pub ticket_status_after : PaymentStatus → SaleMethod → TicketStatus → TicketStatus
ticket_status_after PaymentStatus.success method status = TicketStatus.paid
ticket_status_after PaymentStatus.failed SaleMethod.direct status = TicketStatus.cancelled
ticket_status_after _ method status = status

abbrev pub has_idempotency_key : Uuid → Database → Bool
has_idempotency_key k db = any (λ p. p.idempotency_key == k) db.payments

-- INSERT INTO payment. `db.flush` does not translate the unique constraint on idempotency_key.
unfoldable pub insert_payment : Payment → Service (Unit {0})
insert_payment p =
    write
      (λ db.
        if has_idempotency_key p.idempotency_key db
        then some (plain ErrorClass.dbapi_error)
        else none)
      (λ db. record db { payments = db.payments ++ p ∷ [] })

-- From the gateway's answer to the end of create_ticket_payment: the payment's row and the ticket
-- as they stand when the caller goes on.
unfoldable pub record_ticket_payment :
    Request → Uuid → Ticket → CheckoutData → Charge → Service (Payment × Ticket)
record_ticket_payment req user_id ticket data' charge = do
  ticket_type ←
      found (plain ErrorClass.attribute_error) (← query (find_ticket_type ticket.ticket_type_id))
  let payment : Payment = record {
    id = req.new_payment_id;
    order_id = none;
    ticket_id = some ticket.id;
    user_id = user_id;
    amount = data'.amount;
    status = charge.status;
    payment_gateway = data'.gateway;
    is_paid = is_success charge.status;
    pg_order_id = charge.pg_order_id;
    pg_payment_id = charge.pg_payment_id;
    idempotency_key = data'.idempotency_key;
  }
  insert_payment payment
  let ticket' : Ticket = record ticket {
    status = ticket_status_after charge.status ticket_type.sale_method ticket.status;
    payment_id = some req.new_payment_id;
  }
  modify (put_ticket ticket')
  pure (payment, ticket')

-- PaymentService.create_ticket_payment
unfoldable pub create_ticket_payment :
    Request → Uuid → Ticket → CheckoutData → Service (Payment × Ticket)
create_ticket_payment req user_id ticket data' = do
  charge ← charge_by req data' data'.gateway
  record_ticket_payment req user_id ticket data' charge

-- A nullable column compared with an id: NULL is equal to none.
abbrev names_id : Uuid → Option Uuid → Bool
names_id k none = false
names_id k (some j) = j == k

-- PaymentService.fetch_payment_status
unfoldable pub fetch_payment_status : Uuid → Uuid → Service (Option Payment)
fetch_payment_status user_id' order_id' =
    query (λ db. find (λ p. p.user_id == user_id' && names_id order_id' p.order_id) db.payments)

-- PaymentService.fetch_ticket_payment_status
unfoldable pub fetch_ticket_payment_status : Uuid → Uuid → Service (Option Payment)
fetch_ticket_payment_status user_id' ticket_id' =
    query (λ db. find (λ p. p.user_id == user_id' && names_id ticket_id' p.ticket_id) db.payments)

-- PaymentService.fetch_all_payments
unfoldable pub fetch_all_payments : Uuid → Service (List Payment)
fetch_all_payments user_id' = query (λ db. filter (λ p. p.user_id == user_id') db.payments)
