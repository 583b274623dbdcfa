-- ===== src/Lottery/Invariant.antt =====
-- The cap on a fan's entries to a campaign.
use i_dolly_backend.Database.{Database}
use i_dolly_backend.Lottery.Entry.{
  apply_to_lotteries, insert_entry, is_entry_of, open_campaign, stage_entries, stage_entry,
}
use i_dolly_backend.Prelude.{
  ◌≤◌, ◌<◌, ◌≡◌, Bool-cases, List, [], ◌∷◌, arith, count, count-append, inl, inr, none, some, ==→eq,
}
use i_dolly_backend.Rows.{find_lottery_campaign}
use i_dolly_backend.Session.{Session}
use i_dolly_backend.Session.Invariant.{
  Keeps, Holds, Keeps-bind, Keeps-pure, Keeps-write, keeps_rules,
}
use i_dolly_backend.Tables.{LotteryCampaign, LotteryEntry, Time, User, Uuid}
use i_dolly_backend.Trigger.{enforce_lottery_entry_cap, lottery_entry_triggers}

-- No fan has more entries to a campaign than it allows.
abbrev pub EntriesCapped : Database → Type 0
EntriesCapped db =
    (k u : Uuid) (c : LotteryCampaign)
    → find_lottery_campaign k db ≡ some c
    → count (is_entry_of k u) db.lottery_entries ≤ c.max_entries_per_user

-- The trigger lets an entry in only below the cap.
enforce_lottery_entry_cap-below :
    (db : Database) (e : LotteryEntry) (c : LotteryCampaign)
    → lottery_entry_triggers db e ≡ none
    → find_lottery_campaign e.campaign_id db ≡ some c
    → count (is_entry_of e.campaign_id e.user_id) db.lottery_entries < c.max_entries_per_user
unfolding lottery_entry_triggers enforce_lottery_entry_cap
enforce_lottery_entry_cap-below db e c h f = ground (arith, h, f)

insert_entry-EntriesCapped : (e : LotteryEntry) → Keeps EntriesCapped (insert_entry e)
unfolding insert_entry
insert_entry-EntriesCapped e = Keeps-write EntriesCapped _ _ (λ db t h k u c f.
    elim (Bool-cases (is_entry_of k u e)) [
      | inl own ↦
          let mine : e.campaign_id ≡ k = ==→eq e.campaign_id k (ground (arith, own)) in
          let yours : e.user_id ≡ u = ==→eq e.user_id u (ground (arith, own)) in
          let below = enforce_lottery_entry_cap-below db e c t (rw mine f) in
          ground (
            arith,
            own,
            h k u c f,
            rw (mine, yours) at below,
            count-append (is_entry_of k u) db.lottery_entries (e ∷ []),
          )
      | inr other ↦
          ground
            (arith, other, h k u c f, count-append (is_entry_of k u) db.lottery_entries (e ∷ []))
    ])

open_campaign-EntriesCapped : (now : Time) (k : Uuid) → Keeps EntriesCapped (open_campaign now k)
unfolding open_campaign
open_campaign-EntriesCapped now k = search keeps_rules depth 30

stage_entry-EntriesCapped :
    (now : Time) (entry_id campaign_id : Uuid) (u : User)
    → Keeps EntriesCapped (stage_entry now entry_id campaign_id u)
unfolding stage_entry
stage_entry-EntriesCapped now entry_id campaign_id u =
    search (keeps_rules, insert_entry-EntriesCapped, open_campaign-EntriesCapped) depth 30

stage_entries-EntriesCapped :
    (now : Time) (entry_id : Uuid → Uuid) (ks : List Uuid) (u : User)
    → Keeps EntriesCapped (stage_entries now entry_id ks u)
unfolding stage_entries
stage_entries-EntriesCapped now entry_id [] u = Keeps-pure EntriesCapped _
stage_entries-EntriesCapped now entry_id (k ∷ ks) u =
    Keeps-bind EntriesCapped _ _ (stage_entry-EntriesCapped now (entry_id k) k u) (λ _.
      Keeps-bind EntriesCapped _ _ (stage_entries-EntriesCapped now entry_id ks u)
        (λ _. Keeps-pure EntriesCapped _))

-- An application to several lotteries at once keeps every fan within the cap of every campaign.
pub apply_to_lotteries-EntriesCapped :
    (now : Time) (entry_id : Uuid → Uuid) (campaign_ids : List Uuid) (user : User)
    → (s : Session) → Holds EntriesCapped s
    → Holds EntriesCapped (apply_to_lotteries now entry_id campaign_ids user s).1
unfolding apply_to_lotteries
apply_to_lotteries-EntriesCapped now entry_id campaign_ids user s h =
    let kept : Keeps EntriesCapped (apply_to_lotteries now entry_id campaign_ids user) =
      search (keeps_rules, stage_entries-EntriesCapped) depth 20 in
    kept.at s h
