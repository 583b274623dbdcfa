-- ===== src/Concert/Performers.antt =====
-- app/services/events/concert_service.py: the rows of concert_performers.
use i_dolly_backend.Catalogue.Products.{is_missing_group, is_missing_idol}
use i_dolly_backend.Concert.{manager_scope_violation}
use i_dolly_backend.Error.{ErrorClass, plain}
use i_dolly_backend.Prelude.{
  Bool, not, ◌&&◌, ◌||◌, some, List, [], ◌∷◌, ◌++◌, ◌==◌, delete, filter, find, is_some,
}
use i_dolly_backend.Rows.{find_concert}
use i_dolly_backend.Session.{Service, pure, query, found, raise_if, modify, commit, ◌>>=◌, ◌>>◌}
use i_dolly_backend.Tables.{ConcertPerformer, User, Uuid}

-- `(idol_id is None) == (group_id is None)`
abbrev pub is_both_or_neither : ConcertPerformer → Bool
is_both_or_neither x =
    (is_some x.idol_id && is_some x.group_id)
    || (not (is_some x.idol_id) && not (is_some x.group_id))

-- ConcertService.assign_performer, on the row with the id that it draws.
unfoldable pub assign_performer : ConcertPerformer → User → Service ConcertPerformer
assign_performer data' current_user = do
  raise_if (plain ErrorClass.bad_request) (is_both_or_neither data')
  concert ← found (plain ErrorClass.not_found) (← query (find_concert data'.concert_id))
  raise_if (plain ErrorClass.forbidden)
      (manager_scope_violation current_user (some concert.company_id))
  raise_if (plain ErrorClass.not_found) (← query (is_missing_idol data'.idol_id))
  raise_if (plain ErrorClass.not_found) (← query (is_missing_group data'.group_id))
  modify (λ db. record db { concert_performers = db.concert_performers ++ data' ∷ [] })
  commit
  pure data'

-- ConcertService.get_performers
unfoldable pub get_performers : Uuid → Service (List ConcertPerformer)
get_performers concert_id' =
    query (λ db. filter (λ x. x.concert_id == concert_id') db.concert_performers)

-- ConcertService.get_all_performers
unfoldable pub get_all_performers : Service (List ConcertPerformer)
get_all_performers = query (λ db. db.concert_performers)

-- ConcertService.remove_performer; the concert is there by the row's foreign key.
unfoldable pub remove_performer : Uuid → User → Service ConcertPerformer
remove_performer performer_id current_user = do
  link ←
      found (plain ErrorClass.not_found)
        (← query (λ db. find (λ x. x.id == performer_id) db.concert_performers))
  concert ← found (plain ErrorClass.attribute_error) (← query (find_concert link.concert_id))
  raise_if (plain ErrorClass.forbidden)
      (manager_scope_violation current_user (some concert.company_id))
  modify
      (λ db. record db { concert_performers = delete (λ x. x.id == link.id) db.concert_performers })
  commit
  pure link
