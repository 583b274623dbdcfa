-- ===== src/Lottery/Entry.antt =====
-- app/services/events/lottery_entry_service.py: applying to a lottery.
use i_dolly_backend.Concert.{manager_scope_violation}
use i_dolly_backend.Database.{Database}
use i_dolly_backend.Error.{ErrorClass, plain, coded}
use i_dolly_backend.Notification.{notice}
use i_dolly_backend.Prelude.{
  Bool, ◌&&◌, not, none, some, List, [], ◌∷◌, ◌++◌, ◌==◌, ltb, leb, any, filter, count, is_some,
}
use i_dolly_backend.Rows.{find_lottery_campaign, find_ticket_type, find_concert, add_notification}
use i_dolly_backend.Schema.{
  LotteryEntryStatus, NotificationType, is_fan, is_cancelled_campaign, is_open_campaign,
}
use i_dolly_backend.Session.{
  Service, pure, query, found, raise_if, modify, write, commit, ◌>>=◌, ◌>>◌,
}
use i_dolly_backend.Tables.{Uuid, Time, User, TicketType, LotteryCampaign, LotteryEntry}
use i_dolly_backend.Ticket.{existing_live_ticket}
use i_dolly_backend.Trigger.{lottery_entry_triggers}

abbrev pub new_entry : Uuid → Uuid → Uuid → LotteryEntry
new_entry entry_id campaign_id user_id = record {
  id = entry_id;
  campaign_id = campaign_id;
  user_id = user_id;
  status = LotteryEntryStatus.pending;
  drawn_at = none;
}

abbrev pub is_entry_of : Uuid → Uuid → LotteryEntry → Bool
is_entry_of campaign_id user_id e = e.campaign_id == campaign_id && e.user_id == user_id

-- The has_preference query of _stage_entry.
abbrev pub has_preference : Uuid → TicketType → Database → Bool
has_preference user_id tier db =
    any
      (λ p. p.concert_id == tier.concert_id && p.user_id == user_id && p.ticket_type_id == tier.id)
      db.lottery_preferences

-- INSERT INTO lottery_entries, with its triggers.
unfoldable pub insert_entry : LotteryEntry → Service (Unit {0})
insert_entry e =
    write (λ db. lottery_entry_triggers db e)
      (λ db. record db { lottery_entries = db.lottery_entries ++ e ∷ [] })

-- The campaign of an application: there, open, and inside its window.
unfoldable pub open_campaign : Time → Uuid → Service LotteryCampaign
open_campaign now campaign_id = do
  campaign ← found (plain ErrorClass.not_found) (← query (find_lottery_campaign campaign_id))
  raise_if (coded ErrorClass.bad_request "campaign_cancelled")
      (is_cancelled_campaign campaign.status)
  raise_if (coded ErrorClass.bad_request "campaign_not_open")
      (not (is_open_campaign campaign.status))
  raise_if (coded ErrorClass.bad_request "entries_not_open") (ltb now campaign.entry_start_at)
  raise_if (coded ErrorClass.bad_request "entries_closed") (ltb campaign.entry_end_at now)
  pure campaign

-- LotteryEntryService._stage_entry
unfoldable pub stage_entry : Time → Uuid → Uuid → User → Service LotteryEntry
unfolding existing_live_ticket
stage_entry now entry_id campaign_id current_user = do
  campaign ← open_campaign now campaign_id
  tier ← found (plain ErrorClass.not_found) (← query (find_ticket_type campaign.ticket_type_id))
  raise_if (coded ErrorClass.bad_request "duplicate_concert_ticket")
      (is_some (← query (existing_live_ticket current_user.id tier.concert_id)))
  raise_if (coded ErrorClass.bad_request "lottery_preference_required")
      (not (← query (has_preference current_user.id tier)))
  raise_if (coded ErrorClass.bad_request "lottery_entry_cap_exceeded") (
      leb campaign.max_entries_per_user
        (← query (λ db. count (is_entry_of campaign_id current_user.id) db.lottery_entries)))
  let entry : LotteryEntry = new_entry entry_id campaign_id current_user.id
  insert_entry entry
  modify (
      add_notification (record (notice current_user.id NotificationType.lottery_registered) {
        lottery_entry_id = some entry_id;
      }))
  pure entry

-- The list comprehension of apply_to_lotteries. `entry_id` gives the id drawn for each campaign.
unfoldable pub stage_entries : Time → (Uuid → Uuid) → List Uuid → User → Service (List LotteryEntry)
stage_entries now entry_id [] current_user = pure []
stage_entries now entry_id (campaign_id ∷ campaign_ids) current_user = do
  entry ← stage_entry now (entry_id campaign_id) campaign_id current_user
  entries ← stage_entries now entry_id campaign_ids current_user
  pure (entry ∷ entries)

-- LotteryEntryService.apply_to_lottery
unfoldable pub apply_to_lottery : Time → Uuid → Uuid → User → Service LotteryEntry
apply_to_lottery now entry_id campaign_id current_user = do
  raise_if (coded ErrorClass.forbidden "fan_only_purchase") (not (is_fan current_user.role))
  entry ← stage_entry now entry_id campaign_id current_user
  commit
  pure entry

-- LotteryEntryService.apply_to_lotteries
unfoldable pub apply_to_lotteries :
    Time → (Uuid → Uuid) → List Uuid → User → Service (List LotteryEntry)
apply_to_lotteries now entry_id campaign_ids current_user = do
  raise_if (coded ErrorClass.forbidden "fan_only_purchase") (not (is_fan current_user.role))
  entries ← stage_entries now entry_id campaign_ids current_user
  commit
  pure entries

-- LotteryEntryService.get_entries_for_campaign
unfoldable pub get_entries_for_campaign : Uuid → User → Service (List LotteryEntry)
get_entries_for_campaign campaign_id current_user = do
  campaign ← found (plain ErrorClass.not_found) (← query (find_lottery_campaign campaign_id))
  tier ← found (plain ErrorClass.not_found) (← query (find_ticket_type campaign.ticket_type_id))
  concert ← found (plain ErrorClass.not_found) (← query (find_concert tier.concert_id))
  raise_if (plain ErrorClass.forbidden)
      (manager_scope_violation current_user (some concert.company_id))
  query (λ db. filter (λ e. e.campaign_id == campaign_id) db.lottery_entries)
