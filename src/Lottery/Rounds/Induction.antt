-- ===== src/Lottery/Rounds/Induction.antt =====
-- How a property of the rounds is proved: for one campaign of one rank, and then for all of them.
use i_dolly_backend.Lottery.Rounds.{
  Draw, Rounds, draw_winners, round_result, draw_campaign, draw_campaigns, draw_ranks, lose_entries,
  run_rounds,
}
use i_dolly_backend.Prelude.{
  ℕ, zero, suc, ◌+◌, ◌≤◌, ◌<◌, ◌≡◌, ◌⊎◌, inl, inr, some, List, [], ◌∷◌, arith, ◌==◌, find,
  Option-cases, some-injective, subst,
}
use i_dolly_backend.Tables.{Uuid, TicketType, LotteryCampaign}

-- What one turn does: it leaves a full tier alone, and sells in any other.
abbrev pub Turn : Draw → List (Uuid × ℕ) → ℕ → LotteryCampaign → Rounds → Rounds → Type 0
Turn d ranks rank campaign st st' =
    (tt : TicketType) × (find (λ x. x.id == campaign.ticket_type_id) st.ticket_types ≡ some tt)
    × ((tt.total_quantity ≤ tt.sold_quantity) × (st' ≡ st)
        ⊎ (tt.sold_quantity < tt.total_quantity)
          × (st' ≡ round_result d tt campaign (draw_winners d ranks rank campaign tt st) st))

module _ (d : Draw) (ranks : List (Uuid × ℕ)) where
  pub draw_campaign-Turn :
      (rank : ℕ) (campaign : LotteryCampaign) (st st' : Rounds)
      → draw_campaign d ranks rank campaign st ≡ some st'
      → Turn d ranks rank campaign st st'
  unfolding draw_campaign
  draw_campaign-Turn rank campaign st st' h =
      elim (Option-cases (find (λ x. x.id == campaign.ticket_type_id) st.ticket_types)) [
        | inl e ↦ ground (arith, e)
        | inr (tt, e) ↦ (tt, e, ground (arith, e))
      ]

  module _ (P : ℕ → Rounds → Type 0)
      (turn : (rank : ℕ) (campaign : LotteryCampaign) (st st' : Rounds)
        → Turn d ranks rank campaign st st'
        → P rank st
        → P rank st') where
    pub draw_campaigns-keeps :
        (rank : ℕ) (campaigns : List LotteryCampaign) (st st' : Rounds)
        → draw_campaigns d ranks rank campaigns st ≡ some st'
        → P rank st
        → P rank st'
    unfolding draw_campaigns
    draw_campaigns-keeps rank [] st st' h p = subst (P rank) (some-injective st st' h) p
    draw_campaigns-keeps rank (c ∷ campaigns) st st' h p =
        elim (Option-cases (draw_campaign d ranks rank c st)) [
          | inl e ↦ ground (arith, e)
          | inr (mid, e) ↦
              draw_campaigns-keeps rank campaigns mid st' (ground (arith, e))
                (turn rank c st mid (draw_campaign-Turn rank c st mid e) p)
        ]

    -- The property may speak of the rank: `next` takes it from the end of one to the next.
    pub draw_ranks-keeps :
        (campaigns : List LotteryCampaign)
        → ((rank : ℕ) (st st' : Rounds)
            → draw_campaigns d ranks rank campaigns st ≡ some st'
            → P rank st
            → P (rank + 1) st')
        → (left rank : ℕ) (st st' : Rounds) → draw_ranks d ranks campaigns left rank st ≡ some st'
        → P rank st
        → P (rank + left) st'
    unfolding draw_ranks
    draw_ranks-keeps campaigns next zero rank st st' h p =
        subst (λ r. P r st') (omega arith) (subst (P rank) (some-injective st st' h) p)
    draw_ranks-keeps campaigns next (suc left) rank st st' h p =
        elim (Option-cases (draw_campaigns d ranks rank campaigns st)) [
          | inl e ↦ ground (arith, e)
          | inr (mid, e) ↦
              subst (λ r. P r st') (omega arith)
                (draw_ranks-keeps campaigns next left (rank + 1) mid st' (ground (arith, e))
                  (next rank st mid e p))
        ]

-- A run is its ranks, and then the loop over the losers.
pub run_rounds-split :
    (d : Draw) (ranks : List (Uuid × ℕ)) (max_rank : ℕ) (campaigns : List LotteryCampaign)
    → (st st' : Rounds) → run_rounds d ranks max_rank campaigns st ≡ some st'
    → (drawn : Rounds) × (draw_ranks d ranks campaigns max_rank 1 st ≡ some drawn)
      × (st' ≡ lose_entries d drawn.entries drawn)
unfolding run_rounds
run_rounds-split d ranks max_rank campaigns st st' h =
    elim (Option-cases (draw_ranks d ranks campaigns max_rank 1 st)) [
      | inl e ↦ ground (arith, e)
      | inr (drawn, e) ↦ (drawn, e, ground (arith, e))
    ]
