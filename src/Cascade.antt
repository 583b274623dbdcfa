-- ===== src/Cascade.antt =====
-- The foreign keys of app/db/models/events, app/db/models/marketplace/payment.py and
-- app/db/models/shared/notification.py: what goes with a row that is deleted.
pub mod Deletions
use i_dolly_backend.Database.{Database}
use i_dolly_backend.Prelude.{Bool, false, ◌&&◌, Option, none, some, ◌==◌, any, delete, update}
use i_dolly_backend.Tables.{
  DirectSaleCampaign, LotteryCampaign, LotteryEntry, Notification, Payment, Ticket, TicketType,
  Uuid,
}

-- An optional column that names one of the rows.
abbrev pub names : (Uuid → Bool) → Option Uuid → Bool
names gone none = false
names gone (some k) = gone k

abbrev pub without_payment : Ticket → Ticket
without_payment t = record t { payment_id = none }

abbrev pub without_entry : Ticket → Ticket
without_entry t = record t { lottery_entry_id = none }

-- DELETE FROM tickets: their payments and notifications go too (CASCADE), and a ticket that named
-- such a payment names none (SET NULL).
unfoldable pub delete_tickets : (Ticket → Bool) → Database → Database
delete_tickets p db =
    let gone : Uuid → Bool = λ k. any (λ t. p t && t.id == k) db.tickets in
    let unpaid : Uuid → Bool = λ k. any (λ y. names gone y.ticket_id && y.id == k) db.payments in
    record db {
      tickets = update (λ t. names unpaid t.payment_id) without_payment (delete p db.tickets);
      payments = delete (λ y. names gone y.ticket_id) db.payments;
      notifications = delete (λ n. names gone n.ticket_id) db.notifications;
    }

-- DELETE FROM lottery_entries: their notifications go too, and their tickets stay.
unfoldable pub delete_entries : (LotteryEntry → Bool) → Database → Database
delete_entries p db =
    let gone : Uuid → Bool = λ k. any (λ e. p e && e.id == k) db.lottery_entries in
    record db {
      lottery_entries = delete p db.lottery_entries;
      tickets = update (λ t. names gone t.lottery_entry_id) without_entry db.tickets;
      notifications = delete (λ n. names gone n.lottery_entry_id) db.notifications;
    }

-- DELETE FROM lottery_campaigns, and the entries to them.
unfoldable pub delete_lottery_campaigns : (LotteryCampaign → Bool) → Database → Database
delete_lottery_campaigns p db =
    let gone : Uuid → Bool = λ k. any (λ c. p c && c.id == k) db.lottery_campaigns in
    let rest = delete_entries (λ e. gone e.campaign_id) db in
    record rest { lottery_campaigns = delete p rest.lottery_campaigns }

-- DELETE FROM direct_sale_campaigns, which nothing refers to.
unfoldable pub delete_direct_sale_campaigns : (DirectSaleCampaign → Bool) → Database → Database
delete_direct_sale_campaigns p db = record db {
  direct_sale_campaigns = delete p db.direct_sale_campaigns;
}

-- DELETE FROM ticket_types, with their tickets, campaigns and places in rankings.
unfoldable pub delete_ticket_types : (TicketType → Bool) → Database → Database
delete_ticket_types p db =
    let gone : Uuid → Bool = λ k. any (λ tt. p tt && tt.id == k) db.ticket_types in
    let unsold = delete_tickets (λ t. gone t.ticket_type_id) db in
    let undrawn = delete_lottery_campaigns (λ c. gone c.ticket_type_id) unsold in
    let closed = delete_direct_sale_campaigns (λ c. gone c.ticket_type_id) undrawn in
    record closed {
      lottery_preferences = delete (λ x. gone x.ticket_type_id) closed.lottery_preferences;
      ticket_types = delete p closed.ticket_types;
    }
