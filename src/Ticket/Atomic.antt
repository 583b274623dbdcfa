-- ===== src/Ticket/Atomic.antt =====
-- TicketService.checkout_ticket: what is committed when it raises.
use i_dolly_backend.Error.{Error}
use i_dolly_backend.Payment.{Request, CheckoutData}
use i_dolly_backend.Payment.Atomic.{Uncommitted-create_ticket_payment}
use i_dolly_backend.Prelude.{◌≡◌}
use i_dolly_backend.Rows.{insert_ticket, sell_seat}
use i_dolly_backend.Session.{Session, err}
use i_dolly_backend.Session.Atomic.{Uncommitted, uncommitted_rules}
use i_dolly_backend.Session.Invariant.{keeps_rules}
use i_dolly_backend.Session.Settled.{
  AllOrNothing, AllOrNothing-bind, AllOrNothing-commit, Outcome, calm_rules,
}
use i_dolly_backend.Tables.{Uuid, Ticket, TicketType}
use i_dolly_backend.Ticket.{check_direct_sale, checkout_ticket, confirm_direct_sale}

Uncommitted-insert_ticket : (t : Ticket) → Uncommitted (insert_ticket t)
unfolding insert_ticket
Uncommitted-insert_ticket t = search uncommitted_rules

Uncommitted-sell_seat : (t : TicketType) → Uncommitted (sell_seat t)
unfolding sell_seat
Uncommitted-sell_seat t = search uncommitted_rules

Uncommitted-check_direct_sale :
    (req : Request) (user_id ticket_type_id : Uuid) (data' : CheckoutData)
    → Uncommitted (check_direct_sale req user_id ticket_type_id data')
unfolding check_direct_sale
Uncommitted-check_direct_sale req user_id ticket_type_id data' = search uncommitted_rules depth 40

checkout_ticket-AllOrNothing :
    (req : Request) (user_id ticket_type_id : Uuid) (data' : CheckoutData)
    → AllOrNothing (λ db. db) (checkout_ticket req user_id ticket_type_id data')
unfolding checkout_ticket confirm_direct_sale
checkout_ticket-AllOrNothing req user_id ticket_type_id data' =
    search
      (
        uncommitted_rules, calm_rules, keeps_rules, AllOrNothing-bind, AllOrNothing-commit,
        Uncommitted-insert_ticket, Uncommitted-sell_seat, Uncommitted-check_direct_sale,
        Uncommitted-create_ticket_payment,
      )
      depth 40

-- A direct sale that raises has either committed nothing, or exactly what the same sale commits
-- while Redis is up, when it returns a ticket: Redis has failed after the commit.
pub checkout_ticket_atomic :
    (req : Request) (user_id ticket_type_id : Uuid) (data' : CheckoutData) (s : Session) (e : Error)
    → (checkout_ticket req user_id ticket_type_id data' s).0 ≡ err e
    → Outcome (λ db. db) (checkout_ticket req user_id ticket_type_id data') s
checkout_ticket_atomic req user_id ticket_type_id data' s e h =
    (checkout_ticket-AllOrNothing req user_id ticket_type_id data').at s e h
