-- ===== src/Ticket/Refusal.antt =====
-- The errors of TicketService.checkout_ticket.
use i_dolly_backend.Error.{Error}
use i_dolly_backend.Database.{Database}
use i_dolly_backend.Session.{Session}
use i_dolly_backend.Tables.{Ticket}
