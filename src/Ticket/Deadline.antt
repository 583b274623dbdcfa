-- ===== src/Ticket/Deadline.antt =====
-- The payment of a lottery win past its deadline, and the next attempt at it.
use i_dolly_backend.Error.{Error, ErrorClass, plain}
use i_dolly_backend.Database.{Database}
use i_dolly_backend.Payment.{Request, CheckoutData, has_idempotency_key}
use i_dolly_backend.Prelude.{
  ◌-◌, ◌<◌, ◌≤◌, ◌≡◌, ◌∙◌, ap, refl, arith, true, false, some, none, Bool-cases, Option-cases, inl,
  inr, ◌==◌, key-find, find-put, Option, find, subst,
}
use i_dolly_backend.Rows.{find_ticket, find_ticket_type, put_ticket, put_ticket_type, release_seat}
use i_dolly_backend.Schema.{TicketStatus, is_direct, is_pending_payment}
use i_dolly_backend.Session.{Effect, Session, err, ◌>>=◌}
use i_dolly_backend.Tables.{Ticket, TicketType, Uuid}
use i_dolly_backend.Ticket.{checkout_won_ticket, expire_ticket, is_past, own_ticket}

-- A lottery win of the user that waits for its payment, past the deadline.
pub record Overdue (req : Request) (user_id ticket_id : Uuid) (data' : CheckoutData) (s : Session)
    (ticket : Ticket) (tier : TicketType) : Type 0 where
  pub fresh_key : has_idempotency_key data'.idempotency_key s.view ≡ false
  pub own : own_ticket user_id (find_ticket ticket_id s.view) ≡ some ticket
  pub seen : find_ticket_type ticket.ticket_type_id s.view ≡ some tier
  pub lottery : is_direct tier.sale_method ≡ false
  pub waits : is_pending_payment ticket.status ≡ true
  pub past : is_past ticket.payment_deadline_at req.now ≡ true
  pub sold : 0 < tier.sold_quantity
  pub within : tier.sold_quantity ≤ tier.total_quantity

-- The ticket is expired and its seat is free again.
abbrev pub released : Ticket → TicketType → Database → Database
released ticket tier db =
    put_ticket_type (record tier { sold_quantity = tier.sold_quantity - 1 })
      (put_ticket (record ticket { status = TicketStatus.expired }) db)

overdue-released :
    (req : Request) (user_id ticket_id : Uuid) (data' : CheckoutData) (s : Session)
    (ticket : Ticket) (tier : TicketType)
    → Overdue req user_id ticket_id data' s ticket tier
    → ((checkout_won_ticket req user_id ticket_id data' s).1.committed
        ≡ released ticket tier s.view)
      × ((checkout_won_ticket req user_id ticket_id data' s).1.view ≡ released ticket tier s.view)
unfolding checkout_won_ticket expire_ticket release_seat ◌>>=◌
overdue-released req user_id ticket_id data' s ticket tier o =
    elim (Bool-cases (s.delivers (Effect.delete_cached_concert_detail tier.concert_id))) [
      | inl up ↦ (ground (arith, o, up), ground (arith, o, up))
      | inr down ↦ (ground (arith, o, down), ground (arith, o, down))
    ]

-- A ticket that does not wait for its payment cannot be paid by anyone.
settled-refused :
    (req : Request) (user_id ticket_id : Uuid) (data' : CheckoutData) (s : Session)
    (ticket : Ticket)
    → find_ticket ticket_id s.view ≡ some ticket
    → is_pending_payment ticket.status ≡ false
    → (e : Error) × (checkout_won_ticket req user_id ticket_id data' s ≡ (err e, s))
unfolding checkout_won_ticket ◌>>=◌
settled-refused req user_id ticket_id data' s ticket seen settled =
    elim (Bool-cases (has_idempotency_key data'.idempotency_key s.view)) [
      | inl used ↦ (plain ErrorClass.duplicate_idempotency_key, ground (arith, used))
      | inr fresh ↦ elim (Bool-cases (ticket.user_id == user_id)) [
        | inr foreign ↦ (plain ErrorClass.ticket_not_found, ground (arith, fresh, seen, foreign))
        | inl own ↦ (
          plain ErrorClass.ticket_not_payable,
          elim (Option-cases (find_ticket_type ticket.ticket_type_id s.view)) [
            | inl absent ↦ ground (arith, fresh, seen, own, absent)
            | inr (tier, there) ↦ ground (arith, fresh, seen, own, there, settled)
          ],
        )
      ]
    ]

own_ticket-some :
    (user_id : Uuid) (o : Option Ticket) (t : Ticket) → own_ticket user_id o ≡ some t → o ≡ some t
own_ticket-some user_id none t h = h
own_ticket-some user_id (some x) t h = ground (arith, h)

released-find_ticket :
    (ticket_id : Uuid) (ticket : Ticket) (tier : TicketType) (db : Database)
    → find_ticket ticket_id db ≡ some ticket
    → find_ticket ticket_id (released ticket tier db)
      ≡ some (record ticket { status = TicketStatus.expired })
released-find_ticket ticket_id ticket tier db seen =
    let here : ticket.id ≡ ticket_id = key-find (λ t. t.id) ticket_id db.tickets seen in
    let y : Ticket = record ticket { status = TicketStatus.expired } in
    subst
      (λ k.
        find (λ t. t.id == k) db.tickets ≡ some ticket
        → find (λ t. t.id == k) (released ticket tier db).tickets ≡ some y)
      here (find-put (λ t. t.id) y db.tickets) seen

-- An attempt to pay an overdue win commits exactly two changes, also where Redis fails: the ticket
-- is expired and its seat is released. Any later attempt at that ticket, by anyone, raises and
-- changes nothing, so the seat is released once.
pub checkout_won_ticket-Overdue :
    (req req' : Request) (user_id user_id' ticket_id : Uuid) (data' data'' : CheckoutData)
    (s : Session) (ticket : Ticket) (tier : TicketType)
    → Overdue req user_id ticket_id data' s ticket tier
    → let s' = (checkout_won_ticket req user_id ticket_id data' s).1 in
      (s'.committed ≡ released ticket tier s.view)
      × ((e : Error) × (checkout_won_ticket req' user_id' ticket_id data'' s' ≡ (err e, s')))
checkout_won_ticket-Overdue req req' user_id user_id' ticket_id data' data'' s ticket tier o =
    let s' = (checkout_won_ticket req user_id ticket_id data' s).1 in
    let (committed', view') = overdue-released req user_id ticket_id data' s ticket tier o in
    let seen = own_ticket-some user_id (find_ticket ticket_id s.view) ticket o.own in
    (
      committed',
      settled-refused req' user_id' ticket_id data'' s'
          (record ticket { status = TicketStatus.expired })
          (ap (find_ticket ticket_id) view'
            ∙ released-find_ticket ticket_id ticket tier s.view seen)
          refl,
    )
