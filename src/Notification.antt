-- ===== src/Notification.antt =====
-- app/services/shared/notification_service.py: `create_notification` and the reader's calls.
pub mod Inbox
use i_dolly_backend.Prelude.{false, none}
use i_dolly_backend.Schema.{NotificationType}
use i_dolly_backend.Tables.{Uuid, Notification}

-- A new row with no entity id; the caller sets the one that its keyword argument names.
abbrev pub notice : Uuid → NotificationType → Notification
notice user_id notification_type = record {
  user_id = user_id;
  type = notification_type;
  order_id = none;
  ticket_id = none;
  lottery_entry_id = none;
  concert_id = none;
  is_read = false;
  read_at = none;
}
