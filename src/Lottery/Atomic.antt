-- ===== src/Lottery/Atomic.antt =====
-- The draw, the applications and the rankings: what is committed when they raise.
use i_dolly_backend.Concert.{notify_managers}
use i_dolly_backend.Error.{Error}
use i_dolly_backend.Lottery.Draw.{commit_draw, draw_lottery, insert_tickets}
use i_dolly_backend.Lottery.Entry.{
  apply_to_lotteries, insert_entry, open_campaign, stage_entries, stage_entry,
}
use i_dolly_backend.Lottery.Preference.{
  check_campaigns, check_ranked, check_ranking_change_allowed, insert_preference, insert_ranking,
  set_preferences,
}
use i_dolly_backend.Lottery.Rounds.{Draw}
use i_dolly_backend.Prelude.{ℕ, ◌+◌, ◌≡◌, List, [], ◌∷◌, ◌++◌}
use i_dolly_backend.Rows.{insert_ticket}
use i_dolly_backend.Schema.{NotificationType}
use i_dolly_backend.Session.{Session, err}
use i_dolly_backend.Session.Atomic.{
  Uncommitted, Uncommitted-bind, Uncommitted-pure, Uncommitted-found, Uncommitted-query,
  Uncommitted-raise_if, IsAtomic, IsAtomic-bind, IsAtomic-Returns, uncommitted_rules, returns_rules,
}
use i_dolly_backend.Database.{Database}
use i_dolly_backend.Session.Invariant.{Keeps, keeps_rules}
use i_dolly_backend.Session.Settled.{
  AllOrNothing, AllOrNothing-assoc, AllOrNothing-bind, AllOrNothing-commit, Outcome, ReturnsCalm,
  calm_rules,
}
use i_dolly_backend.Tables.{
  Notification, Concert, LotteryCampaign, LotteryEntry, LotteryPreference, Ticket, Time, User, Uuid,
}

Uncommitted-insert_entry : (e : LotteryEntry) → Uncommitted (insert_entry e)
unfolding insert_entry
Uncommitted-insert_entry e = search uncommitted_rules

Uncommitted-open_campaign : (now : Time) (k : Uuid) → Uncommitted (open_campaign now k)
unfolding open_campaign
Uncommitted-open_campaign now k = search uncommitted_rules depth 30

Uncommitted-stage_entry :
    (now : Time) (entry_id campaign_id : Uuid) (u : User)
    → Uncommitted (stage_entry now entry_id campaign_id u)
unfolding stage_entry
Uncommitted-stage_entry now entry_id campaign_id u =
    search (uncommitted_rules, Uncommitted-insert_entry, Uncommitted-open_campaign) depth 30

Uncommitted-stage_entries :
    (now : Time) (entry_id : Uuid → Uuid) (ks : List Uuid) (u : User)
    → Uncommitted (stage_entries now entry_id ks u)
unfolding stage_entries
Uncommitted-stage_entries now entry_id [] u = search uncommitted_rules
Uncommitted-stage_entries now entry_id (k ∷ ks) u =
    Uncommitted-bind _ _ (Uncommitted-stage_entry now (entry_id k) k u) (λ e.
      Uncommitted-bind _ _ (Uncommitted-stage_entries now entry_id ks u) (λ es. Uncommitted-pure _))

apply_to_lotteries-IsAtomic :
    (now : Time) (entry_id : Uuid → Uuid) (campaign_ids : List Uuid) (user : User)
    → IsAtomic (apply_to_lotteries now entry_id campaign_ids user)
unfolding apply_to_lotteries
apply_to_lotteries-IsAtomic now entry_id campaign_ids user =
    search
      (uncommitted_rules, returns_rules, IsAtomic-bind, IsAtomic-Returns, Uncommitted-stage_entries)
      depth 20

Uncommitted-insert_ticket : (t : Ticket) → Uncommitted (insert_ticket t)
unfolding insert_ticket
Uncommitted-insert_ticket t = search uncommitted_rules

Uncommitted-insert_tickets : (ts : List Ticket) → Uncommitted (insert_tickets ts)
unfolding insert_tickets
Uncommitted-insert_tickets [] = Uncommitted-pure _
Uncommitted-insert_tickets (t ∷ ts) =
    Uncommitted-bind _ _ (Uncommitted-insert_ticket t) (λ _. Uncommitted-insert_tickets ts)

-- What a draw commits, apart from the notifications.
abbrev pub besides_notifications : Database → Database
besides_notifications db = record db { notifications = [] }

append_notices :
    (x : Database) (ns : List Notification) (db : Database)
    → besides_notifications db ≡ x
    → besides_notifications (record db { notifications = db.notifications ++ ns }) ≡ x
append_notices x ns db h = h

ReturnsCalm-notify_managers :
    (type' : NotificationType) (concert : Concert) → ReturnsCalm (notify_managers type' concert)
unfolding notify_managers
ReturnsCalm-notify_managers type' concert = search calm_rules depth 20

notify_managers-Keeps :
    (x : Database) (type' : NotificationType) (concert : Concert)
    → Keeps (λ db. besides_notifications db ≡ x) (notify_managers type' concert)
unfolding notify_managers
notify_managers-Keeps x type' concert = search (keeps_rules, append_notices x) depth 20

draw_lottery-AllOrNothing :
    (d : Draw) (user : User) (concert_id : Uuid)
    → AllOrNothing besides_notifications (draw_lottery d user concert_id)
unfolding draw_lottery commit_draw
draw_lottery-AllOrNothing d user concert_id =
    search
      (
        uncommitted_rules, calm_rules, keeps_rules, AllOrNothing-bind, AllOrNothing-commit,
        AllOrNothing-assoc, ReturnsCalm-notify_managers, notify_managers-Keeps,
        Uncommitted-insert_tickets,
      )
      depth 50

Uncommitted-check_campaigns :
    (now : Time) (campaigns : List LotteryCampaign) (tier_ids : List Uuid)
    → Uncommitted (check_campaigns now campaigns tier_ids)
unfolding check_campaigns
Uncommitted-check_campaigns now campaigns [] = Uncommitted-pure _
Uncommitted-check_campaigns now campaigns (k ∷ ks) =
    Uncommitted-bind _ _ (Uncommitted-found _ _) (λ c.
      Uncommitted-bind _ _ (Uncommitted-raise_if _ _)
        (λ _. Uncommitted-check_campaigns now campaigns ks))

Uncommitted-check_ranking_change_allowed :
    (now : Time) (concert_id user_id : Uuid) (ks : List Uuid)
    → Uncommitted (check_ranking_change_allowed now concert_id user_id ks)
unfolding check_ranking_change_allowed
Uncommitted-check_ranking_change_allowed now concert_id user_id ks =
    search (uncommitted_rules, Uncommitted-check_campaigns) depth 20

Uncommitted-check_ranked :
    (concert_id : Uuid) (seen ks : List Uuid) → Uncommitted (check_ranked concert_id seen ks)
unfolding check_ranked
Uncommitted-check_ranked concert_id seen [] = Uncommitted-pure _
Uncommitted-check_ranked concert_id seen (k ∷ ks) =
    Uncommitted-bind _ _ (Uncommitted-raise_if _ _) (λ _.
      Uncommitted-bind _ _ (Uncommitted-query _) (λ o.
        Uncommitted-bind _ _ (Uncommitted-found _ o) (λ tier.
          Uncommitted-bind _ _ (Uncommitted-raise_if _ _) (λ _.
            Uncommitted-bind _ _ (Uncommitted-raise_if _ _)
              (λ _. Uncommitted-check_ranked concert_id (k ∷ seen) ks)))))

Uncommitted-insert_preference : (p : LotteryPreference) → Uncommitted (insert_preference p)
unfolding insert_preference
Uncommitted-insert_preference p = search uncommitted_rules

Uncommitted-insert_ranking :
    (concert_id user_id : Uuid) (i : ℕ) (ks : List Uuid)
    → Uncommitted (insert_ranking concert_id user_id i ks)
unfolding insert_ranking
Uncommitted-insert_ranking concert_id user_id i [] = Uncommitted-pure _
Uncommitted-insert_ranking concert_id user_id i (k ∷ ks) =
    Uncommitted-bind _ _ (Uncommitted-insert_preference _) (λ _.
      Uncommitted-bind _ _ (Uncommitted-insert_ranking concert_id user_id (i + 1) ks)
        (λ _. Uncommitted-pure _))

set_preferences-IsAtomic :
    (now : Time) (concert_id : Uuid) (tier_ids : List Uuid) (user : User)
    → IsAtomic (set_preferences now concert_id tier_ids user)
unfolding set_preferences
set_preferences-IsAtomic now concert_id tier_ids user =
    search
      (
        uncommitted_rules, returns_rules, IsAtomic-bind, IsAtomic-Returns, Uncommitted-check_ranked,
        Uncommitted-check_ranking_change_allowed, Uncommitted-insert_ranking,
      )
      depth 30

-- A draw that raises has either committed nothing, or, apart from notifications, exactly what the
-- same draw commits while Redis and the database are up, when it returns: the cache or the notice
-- of its completion has failed after the commit.
pub draw_lottery_atomic :
    (d : Draw) (user : User) (concert_id : Uuid) (s : Session) (e : Error)
    → (draw_lottery d user concert_id s).0 ≡ err e
    → Outcome besides_notifications (draw_lottery d user concert_id) s
draw_lottery_atomic d user concert_id s e h = (draw_lottery-AllOrNothing d user concert_id).at s e h

-- An application to several lotteries at once that raises at any of them has committed none.
pub apply_to_lotteries_atomic :
    (now : Time) (entry_id : Uuid → Uuid) (campaign_ids : List Uuid) (user : User) (s : Session)
    (e : Error)
    → (apply_to_lotteries now entry_id campaign_ids user s).0 ≡ err e
    → (apply_to_lotteries now entry_id campaign_ids user s).1.committed ≡ s.committed
apply_to_lotteries_atomic now entry_id campaign_ids user s e h =
    (apply_to_lotteries-IsAtomic now entry_id campaign_ids user).at s e h

-- Setting a ranking that raises has committed nothing: the ranking that was there stays.
pub set_preferences_atomic :
    (now : Time) (concert_id : Uuid) (tier_ids : List Uuid) (user : User) (s : Session) (e : Error)
    → (set_preferences now concert_id tier_ids user s).0 ≡ err e
    → (set_preferences now concert_id tier_ids user s).1.committed ≡ s.committed
set_preferences_atomic now concert_id tier_ids user s e h =
    (set_preferences-IsAtomic now concert_id tier_ids user).at s e h
