-- ===== src/Lottery/Rounds/Tests.antt =====
-- The rounds of a draw, run on two fans and two tiers of one seat each: fan 1 wins the first tier
-- at rank 1, fan 2 the second at rank 2.
use i_dolly_backend.Fixtures.{campaign_of, draw, draw-IsSample, entry_of, tier_of}
use i_dolly_backend.Lottery.Rounds.{
  Rounds, award, award_one, draw_campaign, draw_campaigns, draw_ranks, draw_winners, lose_entries,
  lose_one, rank_entries, round_result, run_rounds,
}
use i_dolly_backend.Lottery.Rounds.Candidates.{IsFull}
use i_dolly_backend.Lottery.Rounds.Outcome.{is_unserved}
use i_dolly_backend.Lottery.Rounds.Results.{run_rounds-allocation, run_rounds-decided}
use i_dolly_backend.Lottery.Rounds.Seats.{Fits, Sells, run_rounds-seats}
use i_dolly_backend.Lottery.Rounds.Totality.{run_rounds_total}
use i_dolly_backend.Lottery.Rounds.Winners.{is_ticket_of, run_rounds-winners}
use i_dolly_backend.Prelude.{
  ℕ, ◌≤◌, ◌≡◌, ◌⊎◌, All, List, [], ◌∷◌, Option, arith, count, none, refl, some, false,
}
use i_dolly_backend.Schema.{LotteryEntryStatus, SaleMethod, is_pending_entry}
use i_dolly_backend.Tables.{LotteryCampaign, Uuid}

abbrev campaigns : List LotteryCampaign
campaigns = campaign_of 20 10 ∷ campaign_of 21 11 ∷ []

abbrev ranks : List (Uuid × ℕ)
ranks = (30, 1) ∷ (31, 1) ∷ (32, 2) ∷ []

abbrev before : Rounds
before = record {
  ticket_types = tier_of 10 5 1 0 SaleMethod.lottery ∷ tier_of 11 5 1 0 SaleMethod.lottery ∷ [];
  entries = entry_of 30 20 1 ∷ entry_of 31 20 2 ∷ entry_of 32 21 2 ∷ [];
  new_tickets = [];
  won_user_ids = [];
  lost_user_ids = [];
  notifications = [];
}

abbrev or_before : Option Rounds → Rounds
or_before none = before
or_before (some st) = st

abbrev after : Rounds
unfolding run_rounds draw_ranks draw_campaigns draw_campaign draw_winners round_result award
    award_one
after = or_before (run_rounds draw ranks 2 campaigns before)

ran : run_rounds draw ranks 2 campaigns before ≡ some after
unfolding run_rounds draw_ranks draw_campaigns draw_campaign draw_winners round_result award
    award_one lose_entries lose_one
ran = refl

ranks_test :
    rank_entries
      (record { concert_id = 5; user_id = 1; ticket_type_id = 10; rank = 1 }
        ∷ record { concert_id = 5; user_id = 2; ticket_type_id = 10; rank = 1 }
        ∷ record { concert_id = 5; user_id = 2; ticket_type_id = 11; rank = 2 }
        ∷ [])
      campaigns
      before.entries
    ≡ some (ranks, 2)
unfolding rank_entries
ranks_test = refl

winners_test : after.won_user_ids ≡ 2 ∷ 1 ∷ []
unfolding run_rounds draw_ranks draw_campaigns draw_campaign draw_winners round_result award
    award_one lose_entries lose_one
winners_test = refl

run_rounds-seats_example : Sells draw before.ticket_types after × Fits after.ticket_types
run_rounds-seats_example =
    run_rounds-seats draw draw-IsSample ranks 2 campaigns before after refl
      (λ k x h. ground (arith, h)) ran

run_rounds-winners_example : count (is_ticket_of 2) after.new_tickets ≤ 1
run_rounds-winners_example =
    run_rounds-winners draw draw-IsSample ranks 2 campaigns before after refl (λ c u. ground arith)
      ran 2

run_rounds-allocation_example :
    All
      (λ c.
        (count (is_unserved ranks 1 c after.won_user_ids) before.entries ≡ 0)
        ⊎ IsFull c.ticket_type_id after.ticket_types)
      campaigns
run_rounds-allocation_example =
    run_rounds-allocation draw draw-IsSample ranks 2 campaigns before after (λ k. ground arith) refl
      ran 1 (omega arith) (omega arith)

run_rounds_total_example : (st : Rounds) × (run_rounds draw ranks 2 campaigns before ≡ some st)
run_rounds_total_example = run_rounds_total draw ranks 2 campaigns before (refl, (refl, tt))

run_rounds-decided_example : is_pending_entry LotteryEntryStatus.lost ≡ false
unfolding run_rounds draw_ranks draw_campaigns draw_campaign draw_winners round_result award
    award_one lose_entries lose_one
run_rounds-decided_example =
    run_rounds-decided draw ranks 2 campaigns before after ran 31
      (record (entry_of 31 20 2) { status = LotteryEntryStatus.lost; drawn_at = some 200 }) refl
