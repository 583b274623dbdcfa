-- ===== src/Inquiry/Confirmations.antt =====
-- The emails that any sequence of inquiries sends to one address.
use i_dolly_backend.Database.{Database}
use i_dolly_backend.Inquiry.{
  Submission, confirmation_window, confirmations_per_address, is_recent, new_inquiry,
  submit_inquiry,
}
use i_dolly_backend.Prelude.{
  ◌+◌, ◌≤◌, ◌≡◌, Bool, true, false, ◌&&◌, Option, List, [], ◌∷◌, ◌++◌, Bool-cases, arith, count,
  count-append, count_mono, inl, inr, leb, ltb, ◌==◌,
}
use i_dolly_backend.Session.{Effect, Session, send, start_on, when, ◌>>=◌}
use i_dolly_backend.Tables.{Inquiry, Text, Time, User}

-- Requests one after another: the database and the emails sent go on from each to the next.
unfoldable pub submit_all : List (Submission × Option User) → Session → Session
submit_all [] s = s
submit_all ((data', user) ∷ rest) s = submit_all rest (submit_inquiry data' user s).1

abbrev pub is_between : Time → Time → Time → Bool
is_between from until t = leb from t && leb t until

-- A confirmation to the address that is queued between two moments.
abbrev pub is_confirmation : Text → Time → Time → Effect → Bool
is_confirmation address from until (Effect.inquiry_received_email email' id' now) =
    email' == address && is_between from until now
is_confirmation address from until _ = false

abbrev is_inquiry : Text → Time → Time → Inquiry → Bool
is_inquiry address from until x = x.email == address && is_between from until x.created_at

-- In each window of an hour at most three confirmations, and an inquiry for each.
record Capped (address : Text) (s : Session) : Type 0 where
  pub capped :
      (from until : Time)
      → until ≤ from + confirmation_window
      → count (is_confirmation address from until) s.effects ≤ confirmations_per_address
  pub inquired :
      (from until : Time)
      → count (is_confirmation address from until) s.effects
        ≤ count (is_inquiry address from until) s.view.inquiries

module _ (address : Text) (data' : Submission) (user : Option User) (s : Session)
    (h : Capped address s) where
  -- A window that the new confirmation falls in is no older than what is counted as recent.
  count-is_recent :
      (from until : Time)
      → until ≤ from + confirmation_window
      → (data'.email == address && is_between from until data'.now) ≡ true
      → count (is_inquiry address from until) s.view.inquiries
        ≤ count (is_recent data'.email data'.now) s.view.inquiries
  count-is_recent from until width falls =
      count_mono (is_inquiry address from until) (is_recent data'.email data'.now) s.view.inquiries
        (λ x e. ground (arith, width, falls, e))

  sent-Capped :
      ltb (count (is_recent data'.email data'.now) s.view.inquiries) confirmations_per_address
        ≡ true
      → Capped address (record s {
        committed = record s.view { inquiries = s.view.inquiries ++ new_inquiry data' user ∷ [] };
        view = record s.view { inquiries = s.view.inquiries ++ new_inquiry data' user ∷ [] };
        effects =
            s.effects ++ Effect.inquiry_received_email data'.email data'.new_id data'.now ∷ [];
      })
  sent-Capped few =
      let email = Effect.inquiry_received_email data'.email data'.new_id data'.now in
      record {
        capped = λ from until width.
            let more = count-append (is_confirmation address from until) s.effects (email ∷ []) in
            elim (Bool-cases (data'.email == address && is_between from until data'.now)) [
              | inl falls ↦ ground (
                arith,
                more,
                falls,
                few,
                h.inquired from until,
                count-is_recent from until width falls,
              )
              | inr misses ↦ ground (arith, more, misses, h.capped from until width)
            ];
        inquired = λ from until. omega (
          arith,
          h.inquired from until,
          count-append (is_confirmation address from until) s.effects (email ∷ []),
          count-append (is_inquiry address from until) s.view.inquiries
              (new_inquiry data' user ∷ []),
        );
      }

  skipped-Capped : Capped address (record s {
    committed = record s.view { inquiries = s.view.inquiries ++ new_inquiry data' user ∷ [] };
    view = record s.view { inquiries = s.view.inquiries ++ new_inquiry data' user ∷ [] };
  })
  skipped-Capped = record {
    capped = h.capped;
    inquired = λ from until. omega (
      arith,
      h.inquired from until,
      count-append (is_inquiry address from until) s.view.inquiries (new_inquiry data' user ∷ []),
    );
  }

submit_inquiry-Capped :
    (address : Text) (data' : Submission) (user : Option User) (s : Session)
    → Capped address s
    → Capped address (submit_inquiry data' user s).1
unfolding submit_inquiry ◌>>=◌
submit_inquiry-Capped address data' user s h =
    elim (Bool-cases
      (ltb (count (is_recent data'.email data'.now) s.view.inquiries) confirmations_per_address)) [
        | inl sends ↦
            let email = Effect.inquiry_received_email data'.email data'.new_id data'.now in
            elim (Bool-cases (s.delivers email)) [
              | inl up ↦ rw (sends, when, send, up) (sent-Capped address data' user s h sends)
              | inr down ↦ rw (sends, when, send, down) (skipped-Capped address data' user s h)
            ]
        | inr full ↦ rw (full, when) (skipped-Capped address data' user s h)
      ]

submit_all-Capped :
    (address : Text) (requests : List (Submission × Option User)) (s : Session)
    → Capped address s
    → Capped address (submit_all requests s)
unfolding submit_all
submit_all-Capped address [] s h = h
submit_all-Capped address ((data', user) ∷ rest) s h =
    submit_all-Capped address rest (submit_inquiry data' user s).1
      (submit_inquiry-Capped address data' user s h)

-- However many inquiries are submitted, in whatever order, no address is sent more than three
-- confirmations within any hour, whether Redis takes each of them or not.
pub submit_all-is_confirmation :
    (requests : List (Submission × Option User)) (db : Database) (address : Text)
    (from until : Time) (delivers' : Effect → Bool)
    → until ≤ from + confirmation_window
    → count
        (is_confirmation address from until)
        (submit_all requests (start_on delivers' true db)).effects
      ≤ 3
submit_all-is_confirmation requests db address from until delivers' width =
    (submit_all-Capped address requests (start_on delivers' true db)
        (record { capped = λ _ _ _. omega arith; inquired = λ _ _. omega arith })).capped
      from until width
