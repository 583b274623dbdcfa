-- ===== src/Order/Settled.antt =====
-- A payment at PayPal that has been captured, and the writes that leave it so.
use i_dolly_backend.Database.{Database}
use i_dolly_backend.Payment.Finalize.{captured_payment, confirm_ticket, is_pg_order, put_payment}
use i_dolly_backend.Prelude.{
  ◌≡◌, refl, ap, ◌∙◌, true, false, Option, none, some, find, find-put_same, find_passes,
}
use i_dolly_backend.Rows.{sell_seat}
use i_dolly_backend.Schema.{SaleMethod, is_pending_payment_row}
use i_dolly_backend.Session.{modify}
use i_dolly_backend.Session.View.{KeepsView, KeepsView-bind, KeepsView-modify, KeepsView-write}
use i_dolly_backend.Tables.{Payment, Ticket, TicketType, Uuid}

-- The payment of this PayPal order is in the table, and no longer pending.
pub record Settled (k : Uuid) (db : Database) : Type 0 where
  pub payment : Payment
  pub found' : find (is_pg_order k) db.payments ≡ some payment
  pub closed : is_pending_payment_row payment.status ≡ false

captured_payment-is_pending :
    (p : Payment) (capture : Option (Option Uuid))
    → is_pending_payment_row (captured_payment p capture).status ≡ false
captured_payment-is_pending p none = refl
captured_payment-is_pending p (some capture_id) = refl

captured_payment-is_pg_order :
    (k : Uuid) (p : Payment) (capture : Option (Option Uuid))
    → is_pg_order k p ≡ true
    → is_pg_order k (captured_payment p capture) ≡ true
captured_payment-is_pg_order k p none h = h
captured_payment-is_pg_order k p (some capture_id) h = h

captured_payment-id :
    (p : Payment) (capture : Option (Option Uuid)) → p.id ≡ (captured_payment p capture).id
captured_payment-id p none = refl
captured_payment-id p (some capture_id) = refl

-- A capture settles the payment, whether it completes or not.
pub put_payment-Settled :
    (k : Uuid) (p : Payment) (capture : Option (Option Uuid)) (db : Database)
    → find (is_pg_order k) db.payments ≡ some p
    → Settled k (put_payment (captured_payment p capture) db)
put_payment-Settled k p capture db seen = record {
  payment = captured_payment p capture;
  found' =
      find-put_same (λ x. x.id) (is_pg_order k) (captured_payment p capture) db.payments {x = p}
        seen (captured_payment-id p capture)
        (captured_payment-is_pg_order k p capture (find_passes (is_pg_order k) db.payments seen));
  closed = captured_payment-is_pending p capture;
}

-- The same payments, whatever else a write has changed.
pub same_payments :
    (k : Uuid) (f : Database → Database)
    → ((db : Database) → (f db).payments ≡ db.payments)
    → (db : Database) → Settled k db
    → Settled k (f db)
same_payments k f e db h = record {
  payment = h.payment;
  found' = ap (find (is_pg_order k)) (e db) ∙ h.found';
  closed = h.closed;
}

pub modify-Settled :
    (k : Uuid) (f : Database → Database)
    → ((db : Database) → (f db).payments ≡ db.payments)
    → KeepsView (Settled k) (modify f)
modify-Settled k f e = KeepsView-modify (Settled k) f (same_payments k f e)

sell_seat-Settled : (k : Uuid) (tier : TicketType) → KeepsView (Settled k) (sell_seat tier)
unfolding sell_seat
sell_seat-Settled k tier = KeepsView-write (Settled k) _ _ (same_payments k _ (λ _. refl))

pub confirm_ticket-Settled :
    (k : Uuid) (ticket : Ticket) (tier : TicketType) (m : SaleMethod)
    → KeepsView (Settled k) (confirm_ticket ticket tier m)
unfolding confirm_ticket
confirm_ticket-Settled k ticket tier SaleMethod.direct =
    KeepsView-bind (Settled k) _ _ (sell_seat-Settled k tier) (λ _. modify-Settled k _ (λ _. refl))
confirm_ticket-Settled k ticket tier SaleMethod.lottery = modify-Settled k _ (λ _. refl)
