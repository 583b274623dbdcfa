-- ===== src/Lottery/Preference.antt =====
-- app/services/events/lottery_preference_service.py: a fan's ranking of a concert's tiers. A
-- Python set of ids is the list of its elements.
use i_dolly_backend.Database.{Database}
use i_dolly_backend.Error.{ErrorClass, plain, coded}
use i_dolly_backend.Prelude.{
  ℕ, ◌+◌, Bool, ◌&&◌, ◌||◌, not, Option, none, some, List, [], ◌∷◌, ◌++◌, map, if◌then◌else◌, ◌==◌,
  ltb, any, filter, delete, contains,
}
use i_dolly_backend.Rows.{find_concert, find_ticket_type}
use i_dolly_backend.Schema.{is_direct, is_open_campaign, is_cancelled_campaign, is_pending_entry}
use i_dolly_backend.Session.{
  Service, pure, query, found, raise_if, modify, write, commit, ◌>>=◌, ◌>>◌,
}
use i_dolly_backend.Tables.{Uuid, Time, User, LotteryCampaign, LotteryEntry, LotteryPreference}
use i_dolly_backend.Trigger.{require_ticket_type_matches_concert}

-- The rows of one fan's ranking of one concert.
abbrev pub is_ranking_of : Uuid → Uuid → LotteryPreference → Bool
is_ranking_of concert_id user_id p = p.concert_id == concert_id && p.user_id == user_id

-- LotteryPreferenceService._current_tier_ids
unfoldable pub current_tier_ids : Uuid → Uuid → Database → List Uuid
current_tier_ids concert_id user_id db =
    map (λ p. p.ticket_type_id) (filter (is_ranking_of concert_id user_id) db.lottery_preferences)

-- LotteryPreferenceService._campaigns_for_tiers
unfoldable pub campaigns_for_tiers : List Uuid → Database → List LotteryCampaign
campaigns_for_tiers tier_ids db =
    filter (λ c. contains c.ticket_type_id tier_ids && not (is_cancelled_campaign c.status))
      db.lottery_campaigns

-- An entry of the user, still pending, to a campaign of one of the tiers.
abbrev pub is_entered : Database → List Uuid → Uuid → LotteryEntry → Bool
is_entered db tier_ids user_id e =
    e.user_id == user_id
    && is_pending_entry e.status
    && any (λ c. c.id == e.campaign_id && contains c.ticket_type_id tier_ids) db.lottery_campaigns

-- Whether `_entered_tier_ids` is not empty.
unfoldable pub has_entered : List Uuid → Uuid → Database → Bool
has_entered tier_ids user_id db = any (is_entered db tier_ids user_id) db.lottery_entries

-- `campaigns_by_tier.get(tier_id)`: the last campaign of the tier stays in the dict.
unfoldable pub campaign_by_tier : List LotteryCampaign → Uuid → Option LotteryCampaign
campaign_by_tier [] tier_id = none
campaign_by_tier (c ∷ cs) tier_id = elim (campaign_by_tier cs tier_id) [
  | some later ↦ some later
  | none ↦ if c.ticket_type_id == tier_id then some c else none
]

-- The loop over the new tiers: each has a campaign, and its entries have opened.
unfoldable pub check_campaigns : Time → List LotteryCampaign → List Uuid → Service (Unit {0})
check_campaigns now campaigns [] = pure tt
check_campaigns now campaigns (tier_id ∷ tier_ids) = do
  campaign ←
      found (coded ErrorClass.not_found "no_lottery_campaign") (campaign_by_tier campaigns tier_id)
  raise_if (coded ErrorClass.bad_request "entries_not_open") (ltb now campaign.entry_start_at)
  check_campaigns now campaigns tier_ids

-- A campaign whose entries can no longer change.
abbrev pub is_locked : Time → LotteryCampaign → Bool
is_locked now c = not (is_open_campaign c.status) || ltb c.entry_end_at now

-- LotteryPreferenceService._check_ranking_change_allowed
unfoldable pub check_ranking_change_allowed : Time → Uuid → Uuid → List Uuid → Service (Unit {0})
check_ranking_change_allowed now concert_id user_id new_tier_ids = do
  current ← query (current_tier_ids concert_id user_id)
  campaigns ← query (campaigns_for_tiers (current ++ new_tier_ids))
  raise_if (coded ErrorClass.bad_request "ranking_locked") (any (is_locked now) campaigns)
  check_campaigns now campaigns new_tier_ids
  raise_if (coded ErrorClass.bad_request "tier_already_applied")
      (← query (has_entered (filter (λ k. not (contains k new_tier_ids)) current) user_id))

-- The loop of set_preferences over the ranked list; `seen` is what it has passed.
unfoldable pub check_ranked : Uuid → List Uuid → List Uuid → Service (List Uuid)
check_ranked concert_id seen [] = pure seen
check_ranked concert_id seen (tier_id ∷ tier_ids) = do
  raise_if (coded ErrorClass.bad_request "duplicate_ranked_tier") (contains tier_id seen)
  tier ← found (plain ErrorClass.not_found) (← query (find_ticket_type tier_id))
  raise_if (plain ErrorClass.not_found) (not (tier.concert_id == concert_id))
  raise_if (coded ErrorClass.bad_request "wrong_sale_method") (is_direct tier.sale_method)
  check_ranked concert_id (tier_id ∷ seen) tier_ids

-- INSERT INTO lottery_preferences, with its trigger.
unfoldable pub insert_preference : LotteryPreference → Service (Unit {0})
insert_preference p =
    write (λ db. require_ticket_type_matches_concert db p)
      (λ db. record db { lottery_preferences = db.lottery_preferences ++ p ∷ [] })

-- `for i, tt_id in enumerate(ticket_type_ids_in_order, start=1)`
unfoldable pub insert_ranking : Uuid → Uuid → ℕ → List Uuid → Service (List LotteryPreference)
insert_ranking concert_id user_id i [] = pure []
insert_ranking concert_id user_id i (tier_id ∷ tier_ids) = do
  let row : LotteryPreference = record {
    concert_id = concert_id;
    user_id = user_id;
    ticket_type_id = tier_id;
    rank = i;
  }
  insert_preference row
  rows ← insert_ranking concert_id user_id (i + 1) tier_ids
  pure (row ∷ rows)

abbrev pub delete_ranking : Uuid → Uuid → Database → Database
delete_ranking concert_id user_id db = record db {
  lottery_preferences = delete (is_ranking_of concert_id user_id) db.lottery_preferences;
}

-- LotteryPreferenceService.set_preferences
unfoldable pub set_preferences : Time → Uuid → List Uuid → User → Service (List LotteryPreference)
set_preferences now concert_id tier_ids current_user = do
  found (plain ErrorClass.not_found) (← query (find_concert concert_id))
  seen ← check_ranked concert_id [] tier_ids
  check_ranking_change_allowed now concert_id current_user.id seen
  modify (delete_ranking concert_id current_user.id)
  rows ← insert_ranking concert_id current_user.id 1 tier_ids
  commit
  pure rows

-- LotteryPreferenceService.clear_my_preferences
unfoldable pub clear_my_preferences : Time → Uuid → User → Service Bool
clear_my_preferences now concert_id current_user = do
  check_ranking_change_allowed now concert_id current_user.id []
  deleted ← query (λ db. any (is_ranking_of concert_id current_user.id) db.lottery_preferences)
  modify (delete_ranking concert_id current_user.id)
  commit
  pure deleted
