-- ===== src/Lottery/Rounds.antt =====
-- The rounds of LotteryDrawService.draw_lottery, between the queries at its head and the commit
-- at its end: a pure program on the rows that the head has loaded and locked.
pub mod Induction
pub mod Seats
pub mod Totality
pub mod Winners
pub mod Candidates
pub mod Allocation
pub mod Outcome
pub mod Results
mod Tests
use i_dolly_backend.Notification.{notice}
use i_dolly_backend.Prelude.{
  ℕ, zero, suc, ◌+◌, ◌-◌, ◌*◌, ◌≤◌, min, max, ◌≡◌, Bool, true, false, not, ◌&&◌, Option, none, some,
  List, [], ◌∷◌, ◌++◌, if◌then◌else◌, ◌==◌, ltb, find, filter, update, length, count, contains,
  lookup, is_some,
}
use i_dolly_backend.Schema.{
  NotificationType, LotteryEntryStatus, TicketStatus, CampaignStatus, is_pending_entry,
}
use i_dolly_backend.Tables.{
  Uuid, Time, TicketType, LotteryCampaign, LotteryEntry, LotteryPreference, Ticket, Notification,
}

-- What the draw takes from outside: the time, `uuid.uuid4()` for the ticket of an entry, and
-- `secrets.SystemRandom().sample`, at the rank and the campaign of the round.
pub record Draw : Type 0 where
  pub now : Time
  pub uuid4 : Uuid → Uuid
  pub sample : ℕ → Uuid → List LotteryEntry → ℕ → List LotteryEntry

-- What is documented of `sample(population, k)`: for k up to the size, k items, each item of the
-- population at most as often as it stands there.
pub record IsSample (d : Draw) : Type 0 where
  pub size :
      (rank : ℕ) (campaign : Uuid) (population : List LotteryEntry) (k : ℕ)
      → k ≤ length population
      → length (d.sample rank campaign population k) ≡ k
  pub fair :
      (rank : ℕ) (campaign : Uuid) (population : List LotteryEntry) (k : ℕ)
      → (p : LotteryEntry → Bool)
      → count p (d.sample rank campaign population k) ≤ count p population

-- The objects that the rounds change.
pub record Rounds : Type 0 where
  pub ticket_types : List TicketType
  pub entries : List LotteryEntry
  pub new_tickets : List Ticket
  pub won_user_ids : List Uuid
  pub lost_user_ids : List Uuid
  pub notifications : List Notification

-- `set.add`
abbrev pub add : Uuid → List Uuid → List Uuid
add x xs = if contains x xs then xs else x ∷ xs

infixl 5 ◌>>=◌
abbrev pub ◌>>=◌ : {A B : Type 0} → Option A → (A → Option B) → Option B
none >>= f = none
some a >>= f = f a

-- The loop that fills `preferences_by_entry` and `max_rank`; `none` is the StopIteration of
-- `next` where a preference is missing.
unfoldable pub rank_entries :
    List LotteryPreference → List LotteryCampaign → List LotteryEntry → Option (List (Uuid × ℕ) × ℕ)
rank_entries preferences campaigns [] = some ([], 0)
rank_entries preferences campaigns (entry ∷ entries) = do
  campaign ← find (λ c. c.id == entry.campaign_id) campaigns
  preference ←
      find (λ p. p.user_id == entry.user_id && p.ticket_type_id == campaign.ticket_type_id)
        preferences
  rest ← rank_entries preferences campaigns entries
  some ((entry.id, preference.rank) ∷ rest.0, max preference.rank rest.1)

-- `preferences_by_entry[entry.id] == rank`
abbrev pub has_rank : List (Uuid × ℕ) → ℕ → LotteryEntry → Bool
has_rank ranks rank entry = elim (lookup entry.id ranks) [ none ↦ false | some r ↦ r == rank ]

abbrev pub is_candidate : List (Uuid × ℕ) → ℕ → LotteryCampaign → Rounds → LotteryEntry → Bool
is_candidate ranks rank campaign st entry =
    entry.campaign_id == campaign.id
    && is_pending_entry entry.status
    && not (contains entry.user_id st.won_user_ids)
    && has_rank ranks rank entry

module _ (d : Draw) where
  abbrev pub mark_won : LotteryEntry → LotteryEntry
  mark_won e = record e { status = LotteryEntryStatus.won; drawn_at = some d.now }

  abbrev pub new_ticket : TicketType → LotteryCampaign → LotteryEntry → Ticket
  new_ticket ticket_type campaign candidate = record {
    id = d.uuid4 candidate.id;
    ticket_type_id = ticket_type.id;
    user_id = candidate.user_id;
    lottery_entry_id = some candidate.id;
    payment_id = none;
    status = TicketStatus.pending_payment;
    issued_code = none;
    payment_deadline_at = some (d.now + campaign.payment_deadline_hours * 3600);
  }

  -- One turn of `for candidate in winners`.
  unfoldable pub award_one : TicketType → LotteryCampaign → LotteryEntry → Rounds → Rounds
  award_one ticket_type campaign candidate st = record st {
    entries = update (λ e. e.id == candidate.id) mark_won st.entries;
    new_tickets = st.new_tickets ++ new_ticket ticket_type campaign candidate ∷ [];
    won_user_ids = add candidate.user_id st.won_user_ids;
    notifications =
        st.notifications
        ++ record (notice candidate.user_id NotificationType.lottery_result) {
          lottery_entry_id = some candidate.id;
        }
          ∷ record (notice candidate.user_id NotificationType.lottery_payment_reminder) {
            ticket_id = some (d.uuid4 candidate.id);
          }
          ∷ [];
  }

  unfoldable pub award : TicketType → LotteryCampaign → List LotteryEntry → Rounds → Rounds
  award ticket_type campaign [] st = st
  award ticket_type campaign (candidate ∷ winners) st =
      award ticket_type campaign winners (award_one ticket_type campaign candidate st)

  abbrev pub sell : ℕ → TicketType → TicketType
  sell n tt = record tt { sold_quantity = tt.sold_quantity + n }

  unfoldable pub draw_winners :
      List (Uuid × ℕ) → ℕ → LotteryCampaign → TicketType → Rounds → List LotteryEntry
  draw_winners ranks rank campaign ticket_type st =
      let candidates = filter (is_candidate ranks rank campaign st) st.entries in
      d.sample rank campaign.id candidates
        (min (length candidates) (ticket_type.total_quantity - ticket_type.sold_quantity))

  -- The winners' objects and `ticket_type.sold_quantity += len(winners)`.
  unfoldable pub round_result : TicketType → LotteryCampaign → List LotteryEntry → Rounds → Rounds
  round_result ticket_type campaign winners st =
      let awarded = award ticket_type campaign winners st in
      record awarded {
        ticket_types =
            update (λ tt. tt.id == ticket_type.id) (sell (length winners)) awarded.ticket_types;
      }

  -- The body of `for campaign in campaigns`; `none` is the StopIteration of `next`.
  unfoldable pub draw_campaign : List (Uuid × ℕ) → ℕ → LotteryCampaign → Rounds → Option Rounds
  draw_campaign ranks rank campaign st = do
    ticket_type ← find (λ tt. tt.id == campaign.ticket_type_id) st.ticket_types
    if ltb 0 (ticket_type.total_quantity - ticket_type.sold_quantity)
        then some
            (round_result ticket_type campaign (draw_winners ranks rank campaign ticket_type st) st)
        else some st

  unfoldable pub draw_campaigns :
      List (Uuid × ℕ) → ℕ → List LotteryCampaign → Rounds → Option Rounds
  draw_campaigns ranks rank [] st = some st
  draw_campaigns ranks rank (campaign ∷ campaigns) st =
      draw_campaign ranks rank campaign st >>= draw_campaigns ranks rank campaigns

  -- `for rank in range(1, max_rank + 1)`, with the number of rounds left and the rank of the next.
  unfoldable pub draw_ranks :
      List (Uuid × ℕ) → List LotteryCampaign → ℕ → ℕ → Rounds → Option Rounds
  draw_ranks ranks campaigns zero rank st = some st
  draw_ranks ranks campaigns (suc left) rank st =
      draw_campaigns ranks rank campaigns st >>= draw_ranks ranks campaigns left (rank + 1)

  abbrev pub mark_lost : LotteryEntry → LotteryEntry
  mark_lost e = record e { status = LotteryEntryStatus.lost; drawn_at = some d.now }

  -- One turn of the loop over the entries after the last rank: an entry that is still pending
  -- is lost.
  unfoldable pub lose_one : LotteryEntry → Rounds → Rounds
  lose_one entry st =
      if is_pending_entry entry.status
      then record st {
        entries = update (λ e. e.id == entry.id) mark_lost st.entries;
        lost_user_ids =
            if contains entry.user_id st.won_user_ids
            then st.lost_user_ids
            else add entry.user_id st.lost_user_ids;
        notifications =
            st.notifications
            ++ record (notice entry.user_id NotificationType.lottery_result) {
              lottery_entry_id = some entry.id;
            }
              ∷ [];
      }
      else st

  unfoldable pub lose_entries : List LotteryEntry → Rounds → Rounds
  lose_entries [] st = st
  lose_entries (entry ∷ entries) st = lose_entries entries (lose_one entry st)

  -- All rounds, and then the losers.
  unfoldable pub run_rounds : List (Uuid × ℕ) → ℕ → List LotteryCampaign → Rounds → Option Rounds
  unfolding draw_ranks lose_entries
  run_rounds ranks max_rank campaigns st = do
    drawn ← draw_ranks ranks campaigns max_rank 1 st
    some (lose_entries drawn.entries drawn)
