-- ===== src/Sales.antt =====
-- The three checkouts, of app/services/events/ticket_service.py and
-- app/services/marketplace/order_service.py, as attempts under an idempotency key.
use i_dolly_backend.Database.{Database}
use i_dolly_backend.Error.{Error}
use i_dolly_backend.Order.{checkout}
use i_dolly_backend.Payment.{CheckoutData, Request, has_idempotency_key}
use i_dolly_backend.Prelude.{◌≡◌, true}
use i_dolly_backend.Session.{Service, Session, pure, ◌>>◌}
use i_dolly_backend.Tables.{Order, Payment, Ticket, Uuid}
use i_dolly_backend.Ticket.{checkout_ticket, checkout_won_ticket}

-- A call of one of the checkouts.
pub data Attempt : Type 0 where
  direct : (req : Request) (user_id ticket_type_id : Uuid) (data' : CheckoutData) → Attempt
  won : (req : Request) (user_id ticket_id : Uuid) (data' : CheckoutData) → Attempt
  cart : (req : Request) (user_id address_id : Uuid) (data' : CheckoutData) → Attempt

abbrev pub key : Attempt → Uuid
key (Attempt.direct req user_id k data') = data'.idempotency_key
key (Attempt.won req user_id k data') = data'.idempotency_key
key (Attempt.cart req user_id k data') = data'.idempotency_key

unfoldable pub run : Attempt → Service (Unit {0})
run (Attempt.direct req user_id k data') = do checkout_ticket req user_id k data'; pure tt
run (Attempt.won req user_id k data') = do checkout_won_ticket req user_id k data'; pure tt
run (Attempt.cart req user_id k data') = do checkout req user_id k data'; pure tt

-- Some payment has the key.
abbrev pub Used : Uuid → Database → Type 0
Used k db = has_idempotency_key k db ≡ true
