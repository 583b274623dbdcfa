-- ===== src/Talent/Positions.antt =====
-- app/services/talent/position_service.py.
use i_dolly_backend.Catalogue.{find_idol}
use i_dolly_backend.Database.{Database}
use i_dolly_backend.Error.{Error, ErrorClass, plain}
use i_dolly_backend.Prelude.{
  Bool, true, false, not, ◌&&◌, Option, none, some, List, [], ◌∷◌, ◌++◌, if◌then◌else◌, ◌==◌, any,
  delete, filter, find, is_some, update,
}
use i_dolly_backend.Session.{
  Service, pure, query, found, raise_if, modify, write, commit, ◌>>=◌, ◌>>◌,
}
use i_dolly_backend.Tables.{IdolPosition, Position, Text, User, Uuid}
use i_dolly_backend.Talent.{is_out_of_scope}

abbrev pub find_position : Uuid → Database → Option Position
find_position k db = find (λ p. p.id == k) db.positions

-- `Position.name` is unique: another row with this name.
abbrev pub has_name : Text → Uuid → Position → Bool
has_name name' k p = p.name == name' && not (p.id == k)

abbrev pub check_name : Position → Database → Option Error
check_name position db =
    if any (has_name position.name position.id) db.positions
    then some (plain ErrorClass.dbapi_error)
    else none

-- PositionService.add_position
unfoldable pub add_position : Position → Service Position
add_position position = do
  write (check_name position) (λ db. record db { positions = db.positions ++ position ∷ [] })
  commit
  pure position

-- PositionService.update_position
unfoldable pub update_position : Uuid → Text → Service Position
update_position position_id' name' = do
  db_position ← found (plain ErrorClass.not_found) (← query (find_position position_id'))
  let renamed : Position = record db_position { name = name' }
  write (check_name renamed) (λ db. record db {
    positions = update (λ p. p.id == db_position.id) (λ _. renamed) db.positions;
  })
  commit
  pure renamed

-- PositionService.delete_position, after the lookup. The relationship `idol_positions` has no
-- passive_deletes, so SQLAlchemy refuses a position that an idol has: it would blank out a part of
-- the primary key of idol_positions.
unfoldable pub delete_found_position : Option Position → Service Bool
delete_found_position none = pure false
delete_found_position (some position) = do
  raise_if (plain ErrorClass.assertion_error)
      (← query (λ db. any (λ x. x.position_id == position.id) db.idol_positions))
  modify (λ db. record db { positions = delete (λ p. p.id == position.id) db.positions })
  commit
  pure true

unfoldable pub delete_position : Uuid → Service Bool
delete_position position_id' = do
  position ← query (find_position position_id')
  delete_found_position position

abbrev pub is_assignment : Uuid → Uuid → IdolPosition → Bool
is_assignment idol_id' position_id' x = x.idol_id == idol_id' && x.position_id == position_id'

abbrev pub find_assignment : Uuid → Uuid → Database → Option IdolPosition
find_assignment idol_id' position_id' db =
    find (is_assignment idol_id' position_id') db.idol_positions

-- PositionService.assign_idol_position
unfoldable pub assign_idol_position : IdolPosition → User → Service IdolPosition
assign_idol_position data' current_user = do
  idol ← found (plain ErrorClass.not_found) (← query (find_idol data'.idol_id))
  found (plain ErrorClass.not_found) (← query (find_position data'.position_id))
  raise_if (plain ErrorClass.forbidden) (is_out_of_scope current_user idol.company_id)
  raise_if (plain ErrorClass.bad_request)
      (is_some (← query (find_assignment data'.idol_id data'.position_id)))
  modify (λ db. record db { idol_positions = db.idol_positions ++ data' ∷ [] })
  commit
  pure data'

-- PositionService.get_idol_positions
unfoldable pub get_idol_positions : Uuid → Service (List IdolPosition)
get_idol_positions idol_id' = query (λ db. filter (λ x. x.idol_id == idol_id') db.idol_positions)

-- The lookup and the guard of the two calls below; `link.idol` is there by its foreign key.
unfoldable pub managed_assignment : Uuid → Uuid → User → Service IdolPosition
managed_assignment idol_id' position_id' current_user = do
  link ← found (plain ErrorClass.not_found) (← query (find_assignment idol_id' position_id'))
  idol ← found (plain ErrorClass.attribute_error) (← query (find_idol link.idol_id))
  raise_if (plain ErrorClass.forbidden) (is_out_of_scope current_user idol.company_id)
  pure link

-- PositionService.update_idol_position_primary
unfoldable pub update_idol_position_primary : Uuid → Uuid → Bool → User → Service IdolPosition
update_idol_position_primary idol_id' position_id' is_primary' current_user = do
  link ← managed_assignment idol_id' position_id' current_user
  let changed : IdolPosition = record link { is_primary = is_primary' }
  modify (λ db. record db {
    idol_positions = update (is_assignment idol_id' position_id') (λ _. changed) db.idol_positions;
  })
  commit
  pure changed

-- PositionService.remove_idol_position
unfoldable pub remove_idol_position : Uuid → Uuid → User → Service IdolPosition
remove_idol_position idol_id' position_id' current_user = do
  link ← managed_assignment idol_id' position_id' current_user
  modify (λ db. record db {
    idol_positions = delete (is_assignment idol_id' position_id') db.idol_positions;
  })
  commit
  pure link
