-- ===== src/Lottery/Rounds/Allocation.antt =====
-- Allocation: the candidates and the free seats after all ranks.
use i_dolly_backend.Lottery.Rounds.{
  Draw, IsSample, Rounds, draw_campaign, draw_campaigns, draw_ranks,
}
use i_dolly_backend.Lottery.Rounds.Candidates.{Settled, Turn-Settled, Turn-settles}
use i_dolly_backend.Lottery.Rounds.Induction.{
  Turn, draw_campaign-Turn, draw_campaigns-keeps, draw_ranks-keeps,
}
use native.Mathlib.Decide.{dec_lt}
use i_dolly_backend.Prelude.{
  ℕ, zero, suc, ◌+◌, ◌≤◌, ◌<◌, ◌≡◌, inl, inr, List, [], ◌∷◌, some, arith, All, All-map,
  Option-cases, subst,
}
use i_dolly_backend.Tables.{Uuid, LotteryCampaign}

module _ (d : Draw) (s : IsSample d) (ranks : List (Uuid × ℕ)) where
  AllSettled-Turn :
      (rank : ℕ) (cs : List LotteryCampaign)
      → (rank' : ℕ) (campaign : LotteryCampaign) (st st' : Rounds)
      → Turn d ranks rank' campaign st st'
      → All (λ c. Settled ranks rank c st) cs
      → All (λ c. Settled ranks rank c st') cs
  AllSettled-Turn rank cs rank' campaign st st' t =
      All-map (λ c. Settled ranks rank c st) (λ c. Settled ranks rank c st') cs
        (λ c. Turn-Settled d ranks rank c rank' campaign st st' t)

  draw_campaigns-settles :
      (rank : ℕ) (cs : List LotteryCampaign) (st st' : Rounds)
      → draw_campaigns d ranks rank cs st ≡ some st'
      → All (λ c. Settled ranks rank c st') cs
  unfolding draw_campaigns
  draw_campaigns-settles rank [] st st' h = tt
  draw_campaigns-settles rank (c ∷ cs) st st' h =
      elim (Option-cases (draw_campaign d ranks rank c st)) [
        | inl e ↦ absurd (ground (arith, e))
        | inr (mid, e) ↦ (
          draw_campaigns-keeps d ranks (λ _. Settled ranks rank c) (Turn-Settled d ranks rank c)
              rank cs mid st' (ground (arith, e))
              (Turn-settles d s ranks rank c st mid (draw_campaign-Turn d ranks rank c st mid e)),
          draw_campaigns-settles rank cs mid st' (ground (arith, e)),
        )
      ]

  pub draw_ranks-settles :
      (cs : List LotteryCampaign) (left rank r : ℕ) (st st' : Rounds)
      → draw_ranks d ranks cs left rank st ≡ some st'
      → rank ≤ r
      → r < rank + left
      → All (λ c. Settled ranks r c st') cs
  unfolding draw_ranks
  draw_ranks-settles cs zero rank r st st' h low high = absurd (omega arith)
  draw_ranks-settles cs (suc left) rank r st st' h low high =
      elim (Option-cases (draw_campaigns d ranks rank cs st)) [
        | inl e ↦ absurd (ground (arith, e))
        | inr (mid, e) ↦ elim (dec_lt rank r) [
          | yes later ↦
              draw_ranks-settles cs left (rank + 1) r mid st' (ground (arith, e)) (omega arith)
                (omega arith)
          | no same ↦
              draw_ranks-keeps d ranks (λ _ x. All (λ c. Settled ranks r c x) cs)
                (AllSettled-Turn r cs) cs
                (λ rank'.
                  draw_campaigns-keeps d ranks (λ _ x. All (λ c. Settled ranks r c x) cs)
                    (AllSettled-Turn r cs) rank' cs)
                left (rank + 1) mid st' (ground (arith, e))
                (draw_campaigns-settles r cs st mid
                  (subst (λ k. draw_campaigns d ranks k cs st ≡ some mid) (omega arith) e))
        ]
      ]
