-- ===== src/Payment/Outcome.antt =====
-- What create_ticket_payment leaves behind when it returns.
use i_dolly_backend.Payment.{
  Request, CheckoutData, Charge, charge_by, insert_payment, create_ticket_payment,
  record_ticket_payment, ticket_status_after, has_idempotency_key, is_true,
}
use i_dolly_backend.Prelude.{
  ◌≡◌, refl, ap, ◌∙◌, Bool, true, none, some, [], ◌∷◌, ◌++◌, arith, false, Option-cases, Bool-cases,
  inl, inr, subst,
}
use i_dolly_backend.Rows.{find_ticket_type, put_ticket}
use i_dolly_backend.Schema.{
  PaymentGateway, PaymentStatus, SaleMethod, TicketStatus, is_direct, is_success,
}
use i_dolly_backend.Session.Outcome.{bind-ok}
use i_dolly_backend.Session.{Session, ok, ◌>>=◌}
use i_dolly_backend.Tables.{Uuid, Ticket, TicketType, Payment}

-- The outcome of a charge: the mock gateway charges at once, and PayPal asks the buyer first.
abbrev pub outcome : PaymentGateway → Bool → PaymentStatus
outcome PaymentGateway.mock true = PaymentStatus.success
outcome PaymentGateway.mock false = PaymentStatus.failed
outcome PaymentGateway.paypal simulated = PaymentStatus.pending

charge_by-ok :
    (req : Request) (data' : CheckoutData) (g : PaymentGateway) (s s' : Session) (c : Charge)
    → charge_by req data' g s ≡ (ok c, s')
    → (s' ≡ s) × (c.status ≡ outcome g (is_true data'.simulate_succ))
unfolding charge_by ◌>>=◌
charge_by-ok req data' PaymentGateway.mock s s' c h =
    elim (Bool-cases (is_true data'.simulate_succ)) [
      | inl wins ↦ ground (arith, h, wins)
      | inr fails ↦ ground (arith, h, fails)
    ]
charge_by-ok req data' PaymentGateway.paypal s s' c h = ground arith

-- What the rest of the call has seen and done, if it returns: one payment with a fresh key, for
-- the ticket, the user and the amount, with the outcome of the charge; and the ticket with the
-- payment's id and the status that the outcome leaves it.
pub record Recorded (req : Request) (user_id : Uuid) (ticket : Ticket) (data' : CheckoutData)
    (paid : PaymentStatus) (s s' : Session) (payment : Payment) (ticket' : Ticket) : Type 0 where
  pub tier : TicketType
  pub seen : find_ticket_type ticket.ticket_type_id s.view ≡ some tier
  pub fresh_key : has_idempotency_key data'.idempotency_key s.view ≡ false
  pub payment_key : payment.idempotency_key ≡ data'.idempotency_key
  pub payer : payment.user_id ≡ user_id
  pub charged : payment.amount ≡ data'.amount
  pub for_ticket : payment.ticket_id ≡ some ticket.id
  pub for_no_order : payment.order_id ≡ none
  pub outcome_kept : payment.status ≡ paid
  pub is_paid_kept : payment.is_paid ≡ is_success paid
  pub same_ticket :
      ticket' ≡ record ticket { status = ticket'.status; payment_id = some payment.id }
  -- A success pays the ticket. A failure cancels a direct sale, and nothing else changes a status.
  pub success_pays : paid ≡ PaymentStatus.success → ticket'.status ≡ TicketStatus.paid
  pub failure_cancels :
      paid ≡ PaymentStatus.failed
      → is_direct tier.sale_method ≡ true
      → ticket'.status ≡ TicketStatus.cancelled
  pub win_stays :
      is_success paid ≡ false → is_direct tier.sale_method ≡ false → ticket'.status ≡ ticket.status
  pub pending_stays : paid ≡ PaymentStatus.pending → ticket'.status ≡ ticket.status
  pub session_now : s' ≡ record s {
    view = put_ticket ticket' (record s.view { payments = s.view.payments ++ payment ∷ [] });
  }

after-win :
    (p : PaymentStatus) (m : SaleMethod) (t : TicketStatus)
    → is_success p ≡ false
    → is_direct m ≡ false
    → ticket_status_after p m t ≡ t
unfolding ticket_status_after
after-win p m t h k = ground (arith, h, k)

after-success :
    (m : SaleMethod) (t : TicketStatus)
    → ticket_status_after PaymentStatus.success m t ≡ TicketStatus.paid
unfolding ticket_status_after
after-success m t = refl

after-failed :
    (m : SaleMethod) (t : TicketStatus)
    → is_direct m ≡ true
    → ticket_status_after PaymentStatus.failed m t ≡ TicketStatus.cancelled
unfolding ticket_status_after
after-failed m t k = ground (arith, k)

after-pending :
    (m : SaleMethod) (t : TicketStatus) → ticket_status_after PaymentStatus.pending m t ≡ t
unfolding ticket_status_after
after-pending m t = ground arith

record_ticket_payment-ok :
    (req : Request) (user_id : Uuid) (ticket : Ticket) (data' : CheckoutData) (c : Charge)
    (s s' : Session) (payment : Payment) (ticket' : Ticket)
    → record_ticket_payment req user_id ticket data' c s ≡ (ok (payment, ticket'), s')
    → Recorded req user_id ticket data' c.status s s' payment ticket'
unfolding record_ticket_payment insert_payment ◌>>=◌
record_ticket_payment-ok req user_id ticket data' c s s' payment ticket' h =
    elim (Option-cases (find_ticket_type ticket.ticket_type_id s.view)) [
      | inl e ↦ absurd (ground (arith, e, h))
      | inr (x, e) ↦ elim (Bool-cases (has_idempotency_key data'.idempotency_key s.view)) [
        | inl k ↦ absurd (ground (arith, e, h, k))
        | inr k ↦
            let now : ticket'.status ≡ ticket_status_after c.status x.sale_method ticket.status =
              ground (arith, e, h, k) in
            record {
              tier = x;
              seen = e;
              fresh_key = k;
              payment_key = ground (arith, e, h, k);
              payer = ground (arith, e, h, k);
              charged = ground (arith, e, h, k);
              for_ticket = ground (arith, e, h, k);
              for_no_order = ground (arith, e, h, k);
              outcome_kept = ground (arith, e, h, k);
              is_paid_kept = ground (arith, e, h, k);
              same_ticket = ground (arith, e, h, k);
              success_pays = λ p.
                  now
                  ∙ ap (λ o. ticket_status_after o x.sale_method ticket.status) p
                  ∙ after-success _ _;
              failure_cancels = λ p d.
                  now
                  ∙ ap (λ o. ticket_status_after o x.sale_method ticket.status) p
                  ∙ after-failed _ _ d;
              win_stays = λ f d. now ∙ after-win c.status x.sale_method ticket.status f d;
              pending_stays = λ p.
                  now
                  ∙ ap (λ o. ticket_status_after o x.sale_method ticket.status) p
                  ∙ after-pending _ _;
              session_now = ground (arith, e, h, k);
            }
      ]
    ]

-- A payment for a ticket that returns has recorded one payment, under a fresh key, of that user,
-- amount and ticket, with the outcome of the gateway, has set the ticket's status by that outcome,
-- and has changed nothing else.
pub create_ticket_payment-ok :
    (req : Request) (user_id : Uuid) (ticket : Ticket) (data' : CheckoutData) (s s' : Session)
    (payment : Payment) (ticket' : Ticket)
    → create_ticket_payment req user_id ticket data' s ≡ (ok (payment, ticket'), s')
    → Recorded req user_id ticket data'
        (outcome data'.gateway (is_true data'.simulate_succ))
        s
        s'
        payment
        ticket'
unfolding create_ticket_payment
create_ticket_payment-ok req user_id ticket data' s s' payment ticket' h =
    let (c, s₁, charged, rest) =
      bind-ok (charge_by req data' data'.gateway) (record_ticket_payment req user_id ticket data') s
        s' (payment, ticket') h in
    let (same, gave) = charge_by-ok req data' data'.gateway s s₁ c charged in
    subst (λ p. Recorded req user_id ticket data' p s s' payment ticket') gave
      (subst (λ x. Recorded req user_id ticket data' c.status x s' payment ticket') same
        (record_ticket_payment-ok req user_id ticket data' c s₁ s' payment ticket' rest))
