-- ===== src/Notification/Inbox.antt =====
-- NotificationService.count_unread and mark_all_as_read.
use i_dolly_backend.Prelude.{
  ℕ, ◌≡◌, refl, Bool, true, not, ◌&&◌, some, List, [], ◌∷◌, ◌==◌, arith, count, update,
  if◌then◌else◌,
}
use i_dolly_backend.Session.{Service, Session, commit, modify, ok, pure, query, ◌>>=◌, ◌>>◌}
use i_dolly_backend.Tables.{Notification, Time, User, Uuid}

-- `Notification.user_id == current_user.id, Notification.is_read == False`
abbrev is_unread_of : Uuid → Notification → Bool
is_unread_of user_id n = n.user_id == user_id && not n.is_read

-- NotificationService.count_unread
unfoldable pub count_unread : User → Service ℕ
count_unread current_user = query (λ db. count (is_unread_of current_user.id) db.notifications)

abbrev mark_read : Time → Notification → Notification
mark_read now n = record n { is_read = true; read_at = some now }

-- NotificationService.mark_all_as_read: the number of rows that the UPDATE has matched.
unfoldable pub mark_all_as_read : Time → User → Service ℕ
mark_all_as_read now current_user = do
  updated ← query (λ db. count (is_unread_of current_user.id) db.notifications)
  modify (λ db. record db {
    notifications = update (is_unread_of current_user.id) (mark_read now) db.notifications;
  })
  commit
  pure updated

-- Of the user none is left unread, and of anyone else as many as before.
unread_after :
    (now : Time) (u v : Uuid) (ns : List Notification)
    → count (is_unread_of v) (update (is_unread_of u) (mark_read now) ns)
      ≡ (if u == v then 0 else count (is_unread_of v) ns)
unread_after now u v [] = ground arith
unread_after now u v (n ∷ ns) = ground (arith, unread_after now u v ns)

-- Marking all as read returns the number of notifications that were unread before it; after it
-- the same user has none unread, and every other user as many as before.
pub mark_all_as_read-count_unread :
    (now : Time) (user other : User) (s : Session)
    → ((mark_all_as_read now user s).0 ≡ (count_unread user s).0)
      × ((count_unread other (mark_all_as_read now user s).1).0
          ≡ (if user.id == other.id then ok 0 else (count_unread other s).0))
unfolding mark_all_as_read count_unread ◌>>=◌
mark_all_as_read-count_unread now user other s =
    (refl, ground (arith, unread_after now user.id other.id s.view.notifications))
