-- ===== src/Lottery/Rounds/Totality.antt =====
-- Totality: when the rounds end with a result, none of their `next` raising StopIteration.
use i_dolly_backend.Lottery.Rounds.{
  Draw, Rounds, sell, draw_winners, round_result, draw_campaign, draw_campaigns, draw_ranks,
  lose_entries, run_rounds,
}
use i_dolly_backend.Lottery.Rounds.Induction.{Turn, draw_campaign-Turn}
use i_dolly_backend.Lottery.Rounds.Seats.{tier, ticket_types-award}
use i_dolly_backend.Prelude.{
  ℕ, zero, suc, ◌+◌, ◌-◌, ◌≡◌, refl, ◌∙◌, inl, inr, true, some, List, [], ◌∷◌, arith, ◌==◌, update,
  length, All, is_some, find-update, Option-cases, Bool-cases, ltb, All-map,
}
use i_dolly_backend.Tables.{Uuid, TicketType, LotteryCampaign}

-- The tier of the campaign is among the tiers.
abbrev pub HasTier : List TicketType → LotteryCampaign → Type 0
HasTier tiers c = is_some (tier c.ticket_type_id tiers) ≡ true

module _ (d : Draw) (ranks : List (Uuid × ℕ)) where
  -- No turn adds a tier or loses one.
  tier-sold :
      (j k n : ℕ) (tiers : List TicketType)
      → is_some (tier k (update (λ x. x.id == j) (sell d n) tiers)) ≡ is_some (tier k tiers)
  tier-sold j k n tiers = ground (arith, find-update (λ x. x.id) j k (sell d n) tiers (λ x. refl))

  tier-Turn :
      (rank : ℕ) (campaign : LotteryCampaign) (st st' : Rounds)
      → Turn d ranks rank campaign st st'
      → (k : ℕ) → is_some (tier k st'.ticket_types) ≡ is_some (tier k st.ticket_types)
  unfolding round_result
  tier-Turn rank campaign st st' (_, _, inl (_, e)) k = rw e refl
  tier-Turn rank campaign st st' (sold, _, inr (_, e)) k =
      let winners = draw_winners d ranks rank campaign sold st in
      rw (e, ticket_types-award d sold campaign winners st)
        (tier-sold sold.id k (length winners) st.ticket_types)

  draw_campaign_total :
      (rank : ℕ) (c : LotteryCampaign) (st : Rounds)
      → HasTier st.ticket_types c
      → (st' : Rounds) × (draw_campaign d ranks rank c st ≡ some st')
  unfolding draw_campaign
  draw_campaign_total rank c st h = elim (Option-cases (tier c.ticket_type_id st.ticket_types)) [
    | inl e ↦ ground (arith, e, h)
    | inr (sold, e) ↦ elim (Bool-cases (ltb 0 (sold.total_quantity - sold.sold_quantity))) [
      | inl room ↦
          (round_result d sold c (draw_winners d ranks rank c sold st) st, ground (arith, e, room))
      | inr full ↦ (st, ground (arith, e, full))
    ]
  ]

  draw_campaigns_total :
      (rank : ℕ) (campaigns : List LotteryCampaign) (st : Rounds)
      → All (HasTier st.ticket_types) campaigns
      → (st' : Rounds) × (draw_campaigns d ranks rank campaigns st ≡ some st')
        × ((k : ℕ) → is_some (tier k st'.ticket_types) ≡ is_some (tier k st.ticket_types))
  unfolding draw_campaigns
  draw_campaigns_total rank [] st h = (st, refl, λ k. refl)
  draw_campaigns_total rank (c ∷ campaigns) st h =
      let (mid, e) = draw_campaign_total rank c st h.0 in
      let kept = tier-Turn rank c st mid (draw_campaign-Turn d ranks rank c st mid e) in
      let (st', e', kept') = draw_campaigns_total rank campaigns mid (
        All-map (HasTier st.ticket_types) (HasTier mid.ticket_types) campaigns
          (λ x y. kept x.ticket_type_id ∙ y) h.1) in
      (st', rw e e', λ k. kept' k ∙ kept k)

  draw_ranks_total :
      (campaigns : List LotteryCampaign) (left rank : ℕ) (st : Rounds)
      → All (HasTier st.ticket_types) campaigns
      → (st' : Rounds) × (draw_ranks d ranks campaigns left rank st ≡ some st')
  unfolding draw_ranks
  draw_ranks_total campaigns zero rank st h = (st, refl)
  draw_ranks_total campaigns (suc left) rank st h =
      let (mid, e, kept) = draw_campaigns_total rank campaigns st h in
      let (st', e') = draw_ranks_total campaigns left (rank + 1) mid (
        All-map (HasTier st.ticket_types) (HasTier mid.ticket_types) campaigns
          (λ x y. kept x.ticket_type_id ∙ y) h) in
      (st', rw e e')

  -- The rounds return a result, where the tier of every campaign is among the loaded ones.
  pub run_rounds_total :
      (max_rank : ℕ) (campaigns : List LotteryCampaign) (st : Rounds)
      → All (HasTier st.ticket_types) campaigns
      → (st' : Rounds) × (run_rounds d ranks max_rank campaigns st ≡ some st')
  unfolding run_rounds
  run_rounds_total max_rank campaigns st h =
      let (drawn, e) = draw_ranks_total campaigns max_rank 1 st h in
      (lose_entries d drawn.entries drawn, rw e refl)
