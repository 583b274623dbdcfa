-- ===== src/Payment/Atomic.antt =====
-- PaymentService.create_ticket_payment: what it commits.
use i_dolly_backend.Payment.{
  Request, CheckoutData, charge_by, insert_payment, create_ticket_payment, record_ticket_payment,
}
use i_dolly_backend.Schema.{PaymentGateway}
use i_dolly_backend.Session.Atomic.{Uncommitted, uncommitted_rules}
use i_dolly_backend.Tables.{Uuid, Ticket, Payment}

pub Uncommitted-charge_by :
    (req : Request) (data' : CheckoutData) (g : PaymentGateway)
    → Uncommitted (charge_by req data' g)
unfolding charge_by
Uncommitted-charge_by req data' PaymentGateway.mock = search uncommitted_rules
Uncommitted-charge_by req data' PaymentGateway.paypal = search uncommitted_rules

pub Uncommitted-insert_payment : (p : Payment) → Uncommitted (insert_payment p)
unfolding insert_payment
Uncommitted-insert_payment p = search uncommitted_rules

pub Uncommitted-create_ticket_payment :
    (req : Request) (user_id : Uuid) (ticket : Ticket) (data' : CheckoutData)
    → Uncommitted (create_ticket_payment req user_id ticket data')
unfolding create_ticket_payment record_ticket_payment
Uncommitted-create_ticket_payment req user_id ticket data' =
    search (uncommitted_rules, Uncommitted-charge_by, Uncommitted-insert_payment) depth 20
