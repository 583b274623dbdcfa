-- ===== src/Rows.antt =====
-- The queries by primary key, and the writes of one row, that the services share.
use i_dolly_backend.Database.{Database}
use i_dolly_backend.Error.{ErrorClass, plain}
use i_dolly_backend.Prelude.{
  ◌+◌, ◌-◌, Bool, true, false, ◌&&◌, Option, none, some, [], ◌∷◌, ◌++◌, if◌then◌else◌, ◌==◌, ltb,
  leb, find, update,
}
use i_dolly_backend.Session.{Service, write}
use i_dolly_backend.Tables.{
  Uuid, User, Concert, TicketType, LotteryCampaign, DirectSaleCampaign, LotteryEntry, Ticket,
  Notification,
}
use i_dolly_backend.Trigger.{ticket_triggers}

abbrev pub find_user : Uuid → Database → Option User
find_user k db = find (λ x. x.id == k) db.users

abbrev pub find_concert : Uuid → Database → Option Concert
find_concert k db = find (λ x. x.id == k) db.concerts

abbrev pub find_ticket_type : Uuid → Database → Option TicketType
find_ticket_type k db = find (λ x. x.id == k) db.ticket_types

abbrev pub find_lottery_campaign : Uuid → Database → Option LotteryCampaign
find_lottery_campaign k db = find (λ x. x.id == k) db.lottery_campaigns

abbrev pub find_direct_sale_campaign : Uuid → Database → Option DirectSaleCampaign
find_direct_sale_campaign k db = find (λ x. x.id == k) db.direct_sale_campaigns

abbrev pub find_lottery_entry : Uuid → Database → Option LotteryEntry
find_lottery_entry k db = find (λ x. x.id == k) db.lottery_entries

abbrev pub find_ticket : Uuid → Database → Option Ticket
find_ticket k db = find (λ x. x.id == k) db.tickets

-- `company_id != other`, where either may be None.
abbrev pub same_company : Option Uuid → Option Uuid → Bool
same_company none none = true
same_company (some a) (some b) = a == b
same_company _ _ = false

abbrev pub put_ticket : Ticket → Database → Database
put_ticket t db = record db { tickets = update (λ x. x.id == t.id) (λ _. t) db.tickets }

abbrev pub put_ticket_type : TicketType → Database → Database
put_ticket_type tt db = record db {
  ticket_types = update (λ x. x.id == tt.id) (λ _. tt) db.ticket_types;
}

abbrev pub add_notification : Notification → Database → Database
add_notification n db = record db { notifications = db.notifications ++ n ∷ [] }

-- INSERT INTO tickets, with its triggers.
unfoldable pub insert_ticket : Ticket → Service (Unit {0})
insert_ticket t =
    write (λ db. ticket_triggers db t) (λ db. record db { tickets = db.tickets ++ t ∷ [] })

-- `sold_quantity += 1`, under chk_ticket_types_capacity.
unfoldable pub sell_seat : TicketType → Service (Unit {0})
sell_seat tt =
    write
      (λ _.
        if ltb tt.sold_quantity tt.total_quantity
        then none
        else some (plain ErrorClass.dbapi_error))
      (put_ticket_type (record tt { sold_quantity = tt.sold_quantity + 1 }))

-- `sold_quantity -= 1`, under chk_ticket_types_sold_quantity and chk_ticket_types_capacity.
unfoldable pub release_seat : TicketType → Service (Unit {0})
release_seat tt =
    write
      (λ _.
        if ltb 0 tt.sold_quantity && leb (tt.sold_quantity - 1) tt.total_quantity
        then none
        else some (plain ErrorClass.dbapi_error))
      (put_ticket_type (record tt { sold_quantity = tt.sold_quantity - 1 }))
