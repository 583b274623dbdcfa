-- ===== src/Lottery/Draw.antt =====
-- LotteryDrawService.draw_lottery: the queries, the rounds, and the commit; and the Celery task
-- around it (app/tasks/lottery.py).
use i_dolly_backend.Concert.{manager_scope_violation, notify_managers}
use i_dolly_backend.Database.{Database}
use i_dolly_backend.Error.{ErrorClass, plain, coded}
use i_dolly_backend.Lottery.Rounds.{Draw, Rounds, rank_entries, run_rounds}
use i_dolly_backend.Prelude.{
  ℕ, Bool, true, false, ◌&&◌, ◌||◌, Option, none, some, List, [], ◌∷◌, ◌++◌, map, ◌==◌, ltb, any,
  filter, update, contains,
}
use i_dolly_backend.Rows.{find_user, find_concert, insert_ticket}
use i_dolly_backend.Schema.{
  CampaignStatus, NotificationType, is_fan, is_open_campaign, is_pending_entry,
}
use i_dolly_backend.Session.{
  Service, Effect, pure, raise, query, found, raise_if, modify, commit, rollback, send, attempt,
  ◌>>=◌, ◌>>◌,
}
use i_dolly_backend.Tables.{
  Uuid, Time, User, Concert, TicketType, LotteryCampaign, LotteryEntry, LotteryPreference, Ticket,
}

-- LotteryDrawService._user_scope_violation
unfoldable pub user_scope_violation : User → Uuid → Bool
unfolding manager_scope_violation
user_scope_violation user company_id =
    is_fan user.role || manager_scope_violation user (some company_id)

pub record LotteryResult : Type 0 where
  pub concert_id : Uuid
  pub won_user_ids : List Uuid
  pub lost_user_ids : List Uuid
  pub drawn_at : Time

abbrev pub is_empty {ℓ} : {A : Type ℓ} → List A → Bool
is_empty [] = true
is_empty (x ∷ xs) = false

-- The flush of changed objects: each replaces the row with its id.
module _ {A : Type 0} (key : A → ℕ) where
  unfoldable pub write_back : List A → List A → List A
  write_back [] rows = rows
  write_back (x ∷ xs) rows = write_back xs (update (λ r. key r == key x) (λ _. x) rows)

-- The flush of the new tickets, one INSERT for each.
unfoldable pub insert_tickets : List Ticket → Service (Unit {0})
insert_tickets [] = pure tt
insert_tickets (t ∷ ts) = do insert_ticket t; insert_tickets ts

abbrev pub mark_drawn : Time → LotteryCampaign → LotteryCampaign
mark_drawn now c = record c { status = CampaignStatus.drawn; draw_at = some now }

abbrev pub loaded : List TicketType → List LotteryEntry → Rounds
loaded ticket_types entries = record {
  ticket_types = ticket_types;
  entries = entries;
  new_tickets = [];
  won_user_ids = [];
  lost_user_ids = [];
  notifications = [];
}

-- What the rounds leave in the session, before the new tickets are inserted.
unfoldable pub save_rounds : Time → List LotteryCampaign → Rounds → Database → Database
unfolding write_back
save_rounds now campaigns st db = record db {
  ticket_types = write_back (λ x. x.id) st.ticket_types db.ticket_types;
  lottery_entries = write_back (λ x. x.id) st.entries db.lottery_entries;
  lottery_campaigns = write_back (λ x. x.id) (map (mark_drawn now) campaigns) db.lottery_campaigns;
  notifications = db.notifications ++ st.notifications;
}

-- The rows that the head of draw_lottery selects.
abbrev pub tiers_of : Uuid → Database → List TicketType
tiers_of concert_id db = filter (λ x. x.concert_id == concert_id) db.ticket_types

abbrev pub open_campaigns_of : List TicketType → Database → List LotteryCampaign
open_campaigns_of ticket_types db =
    filter
      (λ c. contains c.ticket_type_id (map (λ x. x.id) ticket_types) && is_open_campaign c.status)
      db.lottery_campaigns

abbrev pub pending_entries_of : List LotteryCampaign → Database → List LotteryEntry
pending_entries_of campaigns db =
    filter (λ e. contains e.campaign_id (map (λ c. c.id) campaigns) && is_pending_entry e.status)
      db.lottery_entries

abbrev pub preferences_of : Uuid → List TicketType → Database → List LotteryPreference
preferences_of concert_id ticket_types db =
    filter
      (λ p. p.concert_id == concert_id && contains p.ticket_type_id (map (λ x. x.id) ticket_types))
      db.lottery_preferences

-- The commit of the draw: `commit_or_raise` flushes every object that changed.
unfoldable pub commit_draw : Time → List LotteryCampaign → Rounds → Service (Unit {0})
commit_draw now campaigns st = do
  modify (save_rounds now campaigns st)
  insert_tickets st.new_tickets
  commit

-- LotteryDrawService.draw_lottery
unfoldable pub draw_lottery : Draw → User → Uuid → Service LotteryResult
draw_lottery d current_user concert_id = do
  concert ← found (plain ErrorClass.not_found) (← query (find_concert concert_id))
  raise_if (plain ErrorClass.forbidden) (user_scope_violation current_user concert.company_id)
  ticket_types ← query (tiers_of concert_id)
  raise_if (plain ErrorClass.not_found) (is_empty ticket_types)
  campaigns ← query (open_campaigns_of ticket_types)
  raise_if (coded ErrorClass.bad_request "no_open_campaigns") (is_empty campaigns)
  raise_if (coded ErrorClass.bad_request "entries_not_ended")
      (any (λ c. ltb d.now c.entry_end_at) campaigns)
  preferences ← query (preferences_of concert_id ticket_types)
  entries ← query (pending_entries_of campaigns)
  ranked ← found (plain ErrorClass.stop_iteration) (rank_entries preferences campaigns entries)
  st ←
      found (plain ErrorClass.stop_iteration)
        (run_rounds d ranked.0 ranked.1 campaigns (loaded ticket_types entries))
  commit_draw d.now campaigns st
  send (Effect.delete_cached_concert_detail concert_id)
  notify_managers NotificationType.lottery_draw_completed concert
  pure (record {
    concert_id = concert_id;
    won_user_ids = st.won_user_ids;
    lost_user_ids = st.lost_user_ids;
    drawn_at = d.now;
  })

-- `if concert: notify_managers_of_draw_failure`
unfoldable pub notify_failure : Option Concert → Service (Unit {0})
notify_failure none = pure tt
notify_failure (some concert) = notify_managers NotificationType.lottery_draw_failed concert

-- draw_lottery_task; a missing user makes `current_user.role` fail inside the `try`.
unfoldable pub draw_lottery_task : Draw → Uuid → Uuid → Service LotteryResult
draw_lottery_task d concert_id user_id =
    attempt
      (do
        current_user ← found (plain ErrorClass.attribute_error) (← query (find_user user_id))
        draw_lottery d current_user concert_id)
      (λ e. do rollback; notify_failure (← query (find_concert concert_id)); raise e)
