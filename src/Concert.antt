-- ===== src/Concert.antt =====
-- app/services/events/concert_service.py: the rows of `concerts`, and the managers' notices.
pub mod Performers
use i_dolly_backend.Database.{Database}
use i_dolly_backend.Error.{ErrorClass, plain}
use i_dolly_backend.Notification.{notice}
use i_dolly_backend.Prelude.{
  ℕ, Bool, true, false, ◌&&◌, ◌||◌, not, Option, none, some, List, [], ◌∷◌, ◌++◌, map, ◌==◌, filter,
  update, contains,
}
use i_dolly_backend.Rows.{find_concert, same_company}
use i_dolly_backend.Schema.{ConcertStatus, NotificationType, is_manager}
use i_dolly_backend.Session.{
  Service, pure, query, found, raise_if, modify, commit, recommit, ◌>>=◌, ◌>>◌,
}
use i_dolly_backend.Tables.{Uuid, Time, User, Concert, Notification}

-- `_manager_scope_violation`, the same in every service of app/services/events.
unfoldable pub manager_scope_violation : User → Option Uuid → Bool
manager_scope_violation user company_id =
    is_manager user.role && not (same_company user.company_id company_id)

-- `_EVENT_OPEN_STATUSES`
abbrev pub is_event_open : ConcertStatus → Bool
is_event_open ConcertStatus.on_sale = true
is_event_open ConcertStatus.sold_out = true
is_event_open ConcertStatus.completed = true
is_event_open _ = false

abbrev pub is_company_manager : Uuid → User → Bool
is_company_manager company_id u = is_manager u.role && same_company u.company_id (some company_id)

-- ConcertService._manager_ids_for_company
unfoldable pub manager_ids_for_company : Uuid → Database → List Uuid
manager_ids_for_company company_id db =
    map (λ u. u.id) (filter (is_company_manager company_id) db.users)

abbrev pub concert_notice : NotificationType → Uuid → Uuid → Notification
concert_notice type' concert_id manager_id = record (notice manager_id type') {
  concert_id = some concert_id;
}

-- notify_managers_of_draw_trigger, _failure and _completion, which differ in the type alone.
unfoldable pub notify_managers : NotificationType → Concert → Service (Unit {0})
notify_managers type' concert = do
  manager_ids ← query (manager_ids_for_company concert.company_id)
  modify (λ db. record db {
    notifications = db.notifications ++ map (concert_notice type' concert.id) manager_ids;
  })
  recommit

-- ConcertService.add_concert, on the row that `Concert(**concert.model_dump())` makes.
unfoldable pub add_concert : Concert → User → Service Concert
add_concert concert current_user = do
  raise_if (plain ErrorClass.forbidden)
      (manager_scope_violation current_user (some concert.company_id))
  raise_if (plain ErrorClass.not_found)
      (not (← query (λ db. contains concert.company_id db.management_companies)))
  raise_if (plain ErrorClass.not_found) (not (← query (λ db. contains concert.venue_id db.venues)))
  modify (λ db. record db { concerts = db.concerts ++ concert ∷ [] })
  commit
  pure concert

pub record ConcertUpdate : Type 0 where
  pub venue_id : Uuid
  pub capacity : ℕ
  pub event_datetime : Time
  pub doors_open_at : Option Time
  pub status : Option ConcertStatus

abbrev pub put_concert : Concert → Database → Database
put_concert c db = record db { concerts = update (λ x. x.id == c.id) (λ _. c) db.concerts }

-- The date, the doors or the capacity differ from the row's.
abbrev pub reschedules : Concert → ConcertUpdate → Bool
reschedules c u =
    not (u.event_datetime == c.event_datetime)
    || not (same_company u.doors_open_at c.doors_open_at)
    || not (u.capacity == c.capacity)

abbrev pub or_else {ℓ} : {A : Type ℓ} → Option A → A → A
or_else none a = a
or_else (some b) a = b

-- ConcertService.update_concert; the title and the description are not modelled.
unfoldable pub update_concert : Uuid → ConcertUpdate → User → Service Concert
update_concert id' u current_user = do
  concert ← found (plain ErrorClass.not_found) (← query (find_concert id'))
  raise_if (plain ErrorClass.forbidden)
      (manager_scope_violation current_user (some concert.company_id))
  raise_if (plain ErrorClass.forbidden)
      (is_manager current_user.role && is_event_open concert.status && reschedules concert u)
  raise_if (plain ErrorClass.not_found) (not (← query (λ db. contains u.venue_id db.venues)))
  let concert' : Concert = record concert {
    venue_id = u.venue_id;
    capacity = u.capacity;
    event_datetime = u.event_datetime;
    doors_open_at = u.doors_open_at;
    status = or_else u.status concert.status;
  }
  modify (put_concert concert')
  commit
  pure concert'

-- ConcertService.delete_concert: a soft delete.
unfoldable pub delete_concert : Uuid → User → Service Concert
delete_concert id' current_user = do
  concert ← found (plain ErrorClass.not_found) (← query (find_concert id'))
  raise_if (plain ErrorClass.forbidden)
      (manager_scope_violation current_user (some concert.company_id))
  let concert' : Concert = record concert { status = ConcertStatus.cancelled }
  modify (put_concert concert')
  commit
  pure concert'
