-- ===== src/Inquiry.antt =====
-- app/services/shared/inquiry_service.py.
pub mod Confirmations
mod Tests
use i_dolly_backend.Database.{Database}
use i_dolly_backend.Prelude.{
  ℕ, ◌+◌, Bool, ◌&&◌, Option, none, some, [], ◌∷◌, ◌++◌, ◌==◌, count, leb, ltb,
}
use i_dolly_backend.Schema.{InquiryTopic}
use i_dolly_backend.Session.{Service, Effect, pure, query, modify, commit, send, when, ◌>>=◌, ◌>>◌}
use i_dolly_backend.Tables.{Inquiry, Text, Time, User, Uuid}

-- CONFIRMATIONS_PER_ADDRESS, and CONFIRMATION_WINDOW in seconds.
abbrev pub confirmations_per_address : ℕ
confirmations_per_address = 3

abbrev pub confirmation_window : ℕ
confirmation_window = 3600

-- InquiryCreate, with the moment of the request and the id that the new row draws. The email is the
-- address in lower case.
pub record Submission : Type 0 where
  pub now : Time
  pub new_id : Uuid
  pub email : Text
  pub topic : InquiryTopic
  pub content : Text

-- `Inquiry.email == email, Inquiry.created_at >= since`, where `since` is an hour before `now`.
abbrev pub is_recent : Text → Time → Inquiry → Bool
is_recent email' now x = x.email == email' && leb now (x.created_at + confirmation_window)

abbrev pub user_id_of : Option User → Option Uuid
user_id_of none = none
user_id_of (some user) = some user.id

-- The row's created_at is the database's clock at the start of the transaction, which is taken to be
-- the request's moment.
abbrev pub new_inquiry : Submission → Option User → Inquiry
new_inquiry data' current_user = record {
  id = data'.new_id;
  email = data'.email;
  topic = data'.topic;
  content = data'.content;
  user_id = user_id_of current_user;
  created_at = data'.now;
}

-- InquiryService.submit_inquiry
unfoldable pub submit_inquiry : Submission → Option User → Service Inquiry
submit_inquiry data' current_user = do
  recent ← query (λ db. count (is_recent data'.email data'.now) db.inquiries)
  modify (λ db. record db { inquiries = db.inquiries ++ new_inquiry data' current_user ∷ [] })
  commit
  when (ltb recent confirmations_per_address)
      (send (Effect.inquiry_received_email data'.email data'.new_id data'.now))
  pure (new_inquiry data' current_user)
