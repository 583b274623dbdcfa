-- ===== src/TicketTypes.antt =====
-- app/services/events/ticket_type_service.py.
use i_dolly_backend.Concert.{manager_scope_violation, is_event_open}
use i_dolly_backend.Database.{Database}
use i_dolly_backend.Error.{Error, ErrorClass, plain}
use i_dolly_backend.Prelude.{
  ℕ, Bool, true, false, ◌&&◌, not, Option, none, some, [], ◌∷◌, ◌++◌, if◌then◌else◌, ◌==◌, ltb, any,
}
use i_dolly_backend.Rows.{find_concert, find_ticket_type, put_ticket_type}
use i_dolly_backend.Schema.{TicketTier, SaleMethod, is_manager}
use i_dolly_backend.Session.{Service, pure, query, found, raise_if, write, commit, ◌>>=◌, ◌>>◌}
use i_dolly_backend.Tables.{Uuid, Price, User, Concert, TicketType}
use i_dolly_backend.Trigger.{enforce_concert_ticket_capacity}

abbrev pub same_tier : TicketTier → TicketTier → Bool
same_tier TicketTier.vip TicketTier.vip = true
same_tier TicketTier.premium TicketTier.premium = true
same_tier TicketTier.regular TicketTier.regular = true
same_tier _ _ = false

abbrev pub same_method : SaleMethod → SaleMethod → Bool
same_method SaleMethod.lottery SaleMethod.lottery = true
same_method SaleMethod.direct SaleMethod.direct = true
same_method _ _ = false

-- uq_ticket_types_concert_tier_method
abbrev pub is_same_offer : TicketType → TicketType → Bool
is_same_offer a b =
    a.concert_id == b.concert_id
    && same_tier a.tier b.tier
    && same_method a.sale_method b.sale_method

-- INSERT INTO ticket_types: its trigger runs before the row, the unique constraint after.
unfoldable pub ticket_type_insert_checks : TicketType → Database → Option Error
ticket_type_insert_checks new db = elim (enforce_concert_ticket_capacity db new) [
  | some e ↦ some e
  | none ↦
      if any (is_same_offer new) db.ticket_types
      then some (plain ErrorClass.duplicate_ticket_type)
      else none
]

-- TicketTypeService.add_ticket_type, on the row that `TicketType(**data.model_dump())` makes.
unfoldable pub add_ticket_type : TicketType → User → Service TicketType
add_ticket_type new current_user = do
  concert ← found (plain ErrorClass.not_found) (← query (find_concert new.concert_id))
  raise_if (plain ErrorClass.forbidden)
      (manager_scope_violation current_user (some concert.company_id))
  write (ticket_type_insert_checks new)
      (λ db. record db { ticket_types = db.ticket_types ++ new ∷ [] })
  commit
  pure new

-- The `if data.total_quantity is not None` block.
unfoldable pub resize : User → Concert → TicketType → Option ℕ → Service TicketType
resize current_user concert tier none = pure tier
resize current_user concert tier (some total) = do
  raise_if (plain ErrorClass.forbidden) (
      is_manager current_user.role
      && is_event_open concert.status
      && not (total == tier.total_quantity))
  raise_if (plain ErrorClass.bad_request) (ltb total tier.sold_quantity)
  pure (record tier { total_quantity = total })

-- The `if data.price is not None` block; both prices are in hundredths already.
unfoldable pub reprice : User → TicketType → Option Price → Service TicketType
reprice current_user tier none = pure tier
reprice current_user tier (some price') = do
  raise_if (plain ErrorClass.forbidden) (is_manager current_user.role && not (tier.price == price'))
  pure (record tier { price = price' })

-- The UPDATE: its trigger fires only if total_quantity is among the changed columns, and
-- chk_ticket_types_capacity holds of the new row.
unfoldable pub ticket_type_update_checks : TicketType → TicketType → Database → Option Error
ticket_type_update_checks old new db =
    if old.total_quantity == new.total_quantity
    then none
    else elim (enforce_concert_ticket_capacity db new) [
      | some e ↦ some e
      | none ↦
          if ltb new.total_quantity new.sold_quantity
          then some (plain ErrorClass.dbapi_error)
          else none
    ]

-- TicketTypeService.update_ticket_type
unfoldable pub update_ticket_type : Uuid → Option ℕ → Option Price → User → Service TicketType
update_ticket_type id' total price' current_user = do
  tier ← found (plain ErrorClass.not_found) (← query (find_ticket_type id'))
  concert ← found (plain ErrorClass.attribute_error) (← query (find_concert tier.concert_id))
  raise_if (plain ErrorClass.forbidden)
      (manager_scope_violation current_user (some concert.company_id))
  resized ← resize current_user concert tier total
  new ← reprice current_user resized price'
  write (ticket_type_update_checks tier new) (put_ticket_type new)
  commit
  pure new
