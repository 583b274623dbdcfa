-- ===== src/Inquiry/Tests.antt =====
-- Four inquiries of one address within an hour.
use i_dolly_backend.Fixtures.{db}
use i_dolly_backend.Inquiry.{Submission}
use i_dolly_backend.Inquiry.Confirmations.{is_confirmation, submit_all, submit_all-is_confirmation}
use i_dolly_backend.Prelude.{◌≤◌, none, List, Option, [], ◌∷◌, arith, count, true}
use i_dolly_backend.Schema.{InquiryTopic}
use i_dolly_backend.Session.{start_on}
use i_dolly_backend.Tables.{Time, User}

abbrev submission_at : Time → Submission
submission_at now' = record {
  now = now';
  new_id = now';
  email = 600;
  topic = InquiryTopic.tickets;
  content = 1;
}

abbrev submissions : List (Submission × Option User)
submissions =
    (submission_at 101, none)
    ∷ (submission_at 102, none)
    ∷ (submission_at 103, none)
    ∷ (submission_at 104, none)
    ∷ []

submit_all-is_confirmation_example :
    count
      (is_confirmation 600 100 3700)
      (submit_all submissions (start_on (λ _. true) true db)).effects
    ≤ 3
submit_all-is_confirmation_example =
    submit_all-is_confirmation submissions db 600 100 3700 (λ _. true) (omega arith)
