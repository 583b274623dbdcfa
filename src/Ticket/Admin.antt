-- ===== src/Ticket/Admin.antt =====
-- The admin's manual overrides of ticket_service.py: add_ticket and update_ticket.
use i_dolly_backend.Concert.{or_else}
use i_dolly_backend.Database.{Database}
use i_dolly_backend.Error.{ErrorClass, plain}
use i_dolly_backend.Prelude.{Bool, false, not, Option, none, some, is_some}
use i_dolly_backend.Rows.{
  find_user, find_ticket, find_ticket_type, find_lottery_entry, put_ticket, insert_ticket,
}
use i_dolly_backend.Schema.{TicketStatus, is_fan}
use i_dolly_backend.Session.{Service, pure, query, found, raise_if, modify, commit, ◌>>=◌, ◌>>◌}
use i_dolly_backend.Tables.{Uuid, Time, Ticket}
use i_dolly_backend.Ticket.{existing_live_ticket}

-- `data.lottery_entry_id is not None and not db.get(LotteryEntry, data.lottery_entry_id)`
abbrev pub lacks_entry : Option Uuid → Database → Bool
lacks_entry none db = false
lacks_entry (some k) db = not (is_some (find_lottery_entry k db))

-- A new row takes the column's default status, `reserved`.
abbrev pub issued_ticket : Uuid → Uuid → Uuid → Option Uuid → Ticket
issued_ticket ticket_id ticket_type_id user_id entry_id = record {
  id = ticket_id;
  ticket_type_id = ticket_type_id;
  user_id = user_id;
  lottery_entry_id = entry_id;
  payment_id = none;
  status = TicketStatus.reserved;
  issued_code = none;
  payment_deadline_at = none;
}

-- TicketService.add_ticket
unfoldable pub add_ticket : Uuid → Uuid → Uuid → Option Uuid → Service Ticket
unfolding existing_live_ticket
add_ticket ticket_id ticket_type_id user_id entry_id = do
  tier ← found (plain ErrorClass.not_found) (← query (find_ticket_type ticket_type_id))
  user ← found (plain ErrorClass.not_found) (← query (find_user user_id))
  raise_if (plain ErrorClass.forbidden) (not (is_fan user.role))
  raise_if (plain ErrorClass.not_found) (← query (lacks_entry entry_id))
  raise_if (plain ErrorClass.bad_request)
      (is_some (← query (existing_live_ticket user_id tier.concert_id)))
  insert_ticket (issued_ticket ticket_id ticket_type_id user_id entry_id)
  commit
  pure (issued_ticket ticket_id ticket_type_id user_id entry_id)

pub record TicketUpdate : Type 0 where
  pub status : Option TicketStatus
  pub issued_code : Option Uuid
  pub payment_id : Option Uuid
  pub payment_deadline_at : Option Time

abbrev pub or_kept {ℓ} : {A : Type ℓ} → Option A → Option A → Option A
or_kept none old = old
or_kept (some a) old = some a

abbrev pub updated_ticket : TicketUpdate → Ticket → Ticket
updated_ticket u t = record t {
  status = or_else u.status t.status;
  issued_code = or_kept u.issued_code t.issued_code;
  payment_id = or_kept u.payment_id t.payment_id;
  payment_deadline_at = or_kept u.payment_deadline_at t.payment_deadline_at;
}

-- TicketService.update_ticket
unfoldable pub update_ticket : Uuid → TicketUpdate → Service Ticket
update_ticket ticket_id u = do
  ticket ← found (plain ErrorClass.not_found) (← query (find_ticket ticket_id))
  modify (put_ticket (updated_ticket u ticket))
  commit
  pure (updated_ticket u ticket)
