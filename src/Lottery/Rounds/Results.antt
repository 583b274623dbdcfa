-- ===== src/Lottery/Rounds/Results.antt =====
-- Results: the entries and the tiers after all rounds.
use i_dolly_backend.Lottery.Rounds.{
  Draw, IsSample, Rounds, mark_lost, draw_ranks, lose_entries, lose_one, run_rounds, mark_won,
}
use i_dolly_backend.Lottery.Rounds.Allocation.{draw_ranks-settles}
use i_dolly_backend.Lottery.Rounds.Candidates.{IsFull, Settled}
use i_dolly_backend.Lottery.Rounds.Induction.{
  draw_campaigns-keeps, draw_ranks-keeps, run_rounds-split,
}
use i_dolly_backend.Lottery.Rounds.Outcome.{
  is_stray, has_id, IsDecided, Turn-IsDecided, Turn-count, is_unserved, unserved-le,
  won-lose_entries,
}
use i_dolly_backend.Lottery.Rounds.Seats.{lose_entries_keeps_sales}
use i_dolly_backend.Prelude.{
  ℕ, ◌≤◌, ◌≡◌, refl, inl, inr, ◌⊎◌, Bool, true, false, ◌&&◌, not, ap, ◌∙◌, List, [], ◌∷◌, some,
  arith, if◌then◌else◌, ◌==◌, All, All-map, any, Option-cases, Bool-cases, find, count, count_mono,
  find-update,
}
use i_dolly_backend.Schema.{is_pending_entry}
use i_dolly_backend.Tables.{Uuid, LotteryCampaign, LotteryEntry}
use mathlib.Core.Option

abbrev pub is_decided : LotteryEntry → Bool
is_decided e = not (is_pending_entry e.status)

module _ (d : Draw) (s : IsSample d) (ranks : List (Uuid × ℕ)) where
  draw_ranks-IsDecided :
      (campaigns : List LotteryCampaign) (left rank : ℕ) (st st' : Rounds)
      → draw_ranks d ranks campaigns left rank st ≡ some st'
      → IsDecided st
      → IsDecided st'
  draw_ranks-IsDecided campaigns =
      draw_ranks-keeps d ranks (λ _. IsDecided) (Turn-IsDecided d s ranks) campaigns
        (λ rank.
          draw_campaigns-keeps d ranks (λ _. IsDecided) (Turn-IsDecided d s ranks) rank campaigns)

  -- A count that looks at no status and no time is the same after the ranks.
  draw_ranks-count :
      (q : LotteryEntry → Bool)
      → ((e : LotteryEntry) → q (mark_won d e) ≡ q e)
      → (campaigns : List LotteryCampaign) (left rank : ℕ) (st st' : Rounds)
      → draw_ranks d ranks campaigns left rank st ≡ some st'
      → count q st'.entries ≡ count q st.entries
  draw_ranks-count q kept campaigns left rank st st' h =
      let n = count q st.entries in
      draw_ranks-keeps d ranks (λ _ x. count q x.entries ≡ n) (Turn-count d s ranks q kept n)
        campaigns
        (λ r.
          draw_campaigns-keeps d ranks (λ _ x. count q x.entries ≡ n)
            (Turn-count d s ranks q kept n) r campaigns)
        left rank st st' h refl

-- No seat is wasted: at every rank of the draw, and for each of its campaigns, either every fan
-- who entered that campaign at that rank has won a ticket of the concert, or the campaign's tier
-- is sold out. The loaded entries are pending and have ids of their own.
pub run_rounds-allocation :
    (d : Draw)
    → IsSample d
    → (ranks : List (Uuid × ℕ)) (max_rank : ℕ) (campaigns : List LotteryCampaign) (st st' : Rounds)
    → ((k : Uuid) → count (has_id k) st.entries ≤ 1)
    → count is_decided st.entries ≡ 0
    → run_rounds d ranks max_rank campaigns st ≡ some st'
    → (rank : ℕ) → 1 ≤ rank
    → rank ≤ max_rank
    → All
        (λ c.
          (count (is_unserved ranks rank c st'.won_user_ids) st.entries ≡ 0)
          ⊎ IsFull c.ticket_type_id st'.ticket_types)
        campaigns
run_rounds-allocation d s ranks max_rank campaigns st st' keyed pending h rank low high =
    let (drawn, e, final) = run_rounds-split d ranks max_rank campaigns st st' h in
    let start : IsDecided st = record {
      keyed = keyed;
      no_stray = omega (
        arith,
        pending,
        count_mono (is_stray st.won_user_ids) is_decided st.entries (λ e t. ground (arith, t)),
      );
    } in
    let decided = draw_ranks-IsDecided d s ranks campaigns max_rank 1 st drawn e start in
    let won : st'.won_user_ids ≡ drawn.won_user_ids =
      ap (λ x. x.won_user_ids) final ∙ won-lose_entries d drawn.entries drawn in
    let tiers : st'.ticket_types ≡ drawn.ticket_types =
      ap (λ x. x.ticket_types) final ∙ (lose_entries_keeps_sales d drawn.entries drawn).0 in
    rw (won, tiers)
      (All-map (λ c. Settled ranks rank c drawn)
        (λ c.
          (count (is_unserved ranks rank c drawn.won_user_ids) st.entries ≡ 0)
          ⊎ IsFull c.ticket_type_id drawn.ticket_types)
        campaigns (λ c. served c drawn e decided)
        (draw_ranks-settles d s ranks campaigns max_rank 1 rank st drawn e low (omega arith)))
  where
    served :
        (c : LotteryCampaign) (drawn : Rounds)
        → draw_ranks d ranks campaigns max_rank 1 st ≡ some drawn
        → IsDecided drawn
        → Settled ranks rank c drawn
        → (count (is_unserved ranks rank c drawn.won_user_ids) st.entries ≡ 0)
          ⊎ IsFull c.ticket_type_id drawn.ticket_types
    served c drawn e decided (inr full) = inr full
    served c drawn e decided (inl z) = inl (
        omega (
          arith,
          z,
          decided.no_stray,
          unserved-le ranks rank c drawn drawn.entries,
          draw_ranks-count d s ranks (is_unserved ranks rank c drawn.won_user_ids) (λ x. refl)
              campaigns max_rank 1 st drawn e,
        ))

abbrev is_pending_at : Uuid → LotteryEntry → Bool
is_pending_at k e = e.id == k && is_pending_entry e.status

find-lose_entries :
    (d : Draw) (k : Uuid) (entries : List LotteryEntry) (st : Rounds)
    → find (has_id k) (lose_entries d entries st).entries ≡ (
        if any (is_pending_at k) entries
        then Option.map (mark_lost d) (find (has_id k) st.entries)
        else find (has_id k) st.entries)
unfolding lose_entries lose_one
find-lose_entries d k [] st = refl
find-lose_entries d k (e ∷ entries) st = ground (
  arith,
  find-lose_entries d k entries (lose_one d e st),
  find-update (λ x. x.id) e.id k (mark_lost d) st.entries (λ x. refl),
)

any-find :
    (p q : LotteryEntry → Bool) (xs : List LotteryEntry) {x : LotteryEntry}
    → find p xs ≡ some x
    → q x ≡ true
    → any (λ e. p e && q e) xs ≡ true
any-find p q [] h t = cc
any-find p q (y ∷ xs) {x} h t = ground (arith, any-find p q xs {x = x}, t)

-- After the draw no entry that it loaded is still pending.
pub run_rounds-decided :
    (d : Draw)
    → (ranks : List (Uuid × ℕ)) (max_rank : ℕ) (campaigns : List LotteryCampaign) (st st' : Rounds)
    → run_rounds d ranks max_rank campaigns st ≡ some st'
    → (k : Uuid) (e : LotteryEntry) → find (has_id k) st'.entries ≡ some e
    → is_pending_entry e.status ≡ false
run_rounds-decided d ranks max_rank campaigns st st' h k e found =
    let (drawn, _, final) = run_rounds-split d ranks max_rank campaigns st st' h in
    let lost = find-lose_entries d k drawn.entries drawn in
    let same = ap (λ x. find (has_id k) x.entries) final in
    elim (Option-cases (find (has_id k) drawn.entries)) [
      | inl absent ↦ ground (arith, absent, lost, same, found)
      | inr (y, seen) ↦ elim (Bool-cases (is_pending_entry y.status)) [
        | inl p ↦ ground (
          arith,
          seen,
          lost,
          same,
          found,
          p,
          any-find (has_id k) (λ x. is_pending_entry x.status) drawn.entries seen p,
        )
        | inr p ↦ ground (arith, seen, lost, same, found, p)
      ]
    ]
