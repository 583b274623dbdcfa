-- ===== src/Lottery/Rounds/Candidates.antt =====
-- Candidates: what a turn does to the candidates of every campaign and rank.
use i_dolly_backend.Lottery.Rounds.{
  Draw, IsSample, Rounds, award_one, award, mark_won, sell, draw_winners, round_result,
  is_candidate,
}
use i_dolly_backend.Lottery.Rounds.Induction.{Turn}
use i_dolly_backend.Lottery.Rounds.Seats.{tier, ticket_types-award}
use i_dolly_backend.Lottery.Rounds.Winners.{is_of_user, contains-add, contains_won-award}
use i_dolly_backend.Prelude.{
  ℕ, ◌-◌, ◌≤◌, ◌≡◌, refl, sym, ap, subst, inl, inr, ◌⊎◌, Bool, true, ◌&&◌, not, List, [], ◌∷◌, some,
  arith, ◌==◌, filter, update, length, min, count, count-update-le, count-filter, count_mono,
  count-cases, count_pos-any, count-not, length-filter, Option-cases, find-update, key-find,
}
use i_dolly_backend.Tables.{Uuid, TicketType, LotteryCampaign, LotteryEntry}

abbrev pub IsFull : Uuid → List TicketType → Type 0
IsFull k tiers = (x : TicketType) → tier k tiers ≡ some x → x.total_quantity ≤ x.sold_quantity

-- Nobody at this rank is left to win this campaign, or its tier is full.
abbrev pub Settled : List (Uuid × ℕ) → ℕ → LotteryCampaign → Rounds → Type 0
Settled ranks rank c st =
    (count (is_candidate ranks rank c st) st.entries ≡ 0) ⊎ IsFull c.ticket_type_id st.ticket_types

module _ (d : Draw) (ranks : List (Uuid × ℕ)) (rank : ℕ) (c : LotteryCampaign) where
  -- A candidate of one fan after a winner is marked was one before.
  candidate-award_one :
      (sold : TicketType) (campaign : LotteryCampaign) (w : LotteryEntry) (st : Rounds)
      → (e : LotteryEntry) → is_candidate ranks rank c (award_one d sold campaign w st) e ≡ true
      → is_candidate ranks rank c st e ≡ true
  unfolding award_one
  candidate-award_one sold campaign w st e h =
      ground (arith, h, contains-add e.user_id w.user_id st.won_user_ids)

  pub count_candidates-award :
      (q : LotteryEntry → Bool) (sold : TicketType) (campaign : LotteryCampaign)
      → (winners : List LotteryEntry) (st : Rounds)
      → count
          (λ e. is_candidate ranks rank c (award d sold campaign winners st) e && q e)
          (award d sold campaign winners st).entries
        ≤ count (λ e. is_candidate ranks rank c st e && q e) st.entries
  unfolding award award_one
  count_candidates-award q sold campaign [] st = omega arith
  count_candidates-award q sold campaign (w ∷ winners) st =
      let next = award_one d sold campaign w st in
      omega (
        arith,
        count_candidates-award q sold campaign winners next,
        count-update-le (λ e. is_candidate ranks rank c next e && q e)
            (λ e. is_candidate ranks rank c st e && q e) (λ e. e.id == w.id) (mark_won d) st.entries
            (λ e h. ground (arith, h))
            (λ e h. ground (arith, h, candidate-award_one sold campaign w st e)),
      )

  -- A tier that is full stays full.
  IsFull-sell :
      (j k n : ℕ) (tiers : List TicketType)
      → IsFull k tiers
      → IsFull k (update (λ x. x.id == j) (sell d n) tiers)
  IsFull-sell j k n tiers full x h = elim (Option-cases (tier k tiers)) [
    | inl e ↦ ground (arith, e, h, find-update (λ y. y.id) j k (sell d n) tiers (λ y. refl))
    | inr (y, e) ↦
        ground (arith, e, h, full y e, find-update (λ y. y.id) j k (sell d n) tiers (λ y. refl))
  ]

  -- The candidates after a sale are among those before.
  count_candidates-le :
      (sold : TicketType) (campaign : LotteryCampaign) (winners : List LotteryEntry) (st : Rounds)
      → count
          (is_candidate ranks rank c (award d sold campaign winners st))
          (award d sold campaign winners st).entries
        ≤ count (is_candidate ranks rank c st) st.entries
  count_candidates-le sold campaign winners st =
      let after = award d sold campaign winners st in
      omega (
        arith,
        count_candidates-award (λ e. true) sold campaign winners st,
        count_mono (is_candidate ranks rank c after)
            (λ e. is_candidate ranks rank c after e && true) after.entries
            (λ e h. ground (arith, h)),
        count_mono (λ e. is_candidate ranks rank c st e && true) (is_candidate ranks rank c st)
            st.entries (λ e h. ground (arith, h)),
      )

  round_result-Settled :
      (sold : TicketType) (campaign : LotteryCampaign) (winners : List LotteryEntry) (st : Rounds)
      → Settled ranks rank c st
      → Settled ranks rank c (round_result d sold campaign winners st)
  unfolding round_result
  round_result-Settled sold campaign winners st (inl none_left) =
      inl (omega (arith, count_candidates-le sold campaign winners st))
  round_result-Settled sold campaign winners st (inr full) = inr (
      rw (ticket_types-award d sold campaign winners st)
        (IsFull-sell sold.id c.ticket_type_id (length winners) st.ticket_types full))

  -- What is settled stays settled.
  pub Turn-Settled :
      (rank' : ℕ) (campaign : LotteryCampaign) (st st' : Rounds)
      → Turn d ranks rank' campaign st st'
      → Settled ranks rank c st
      → Settled ranks rank c st'
  Turn-Settled rank' campaign st st' (_, _, inl (_, e)) h = rw e h
  Turn-Settled rank' campaign st st' (sold, _, inr (_, e)) h =
      rw e (round_result-Settled sold campaign (draw_winners d ranks rank' campaign sold st) st h)

le_total : (a b : ℕ) → (a ≤ b) ⊎ (b ≤ a)
le_total a b = grind arith

-- A sample of the whole population takes each fan's entries as often as they stand in it.
sample_all :
    (d : Draw)
    → IsSample d
    → (rank : ℕ) (campaign : Uuid) (population : List LotteryEntry) (p : LotteryEntry → Bool)
    → count p population ≤ count p (d.sample rank campaign population (length population))
sample_all d s rank campaign population p =
    let n = length population in
    let drawn = d.sample rank campaign population n in
    omega (
      arith,
      s.size rank campaign population n (omega arith),
      s.fair rank campaign population n (λ x. not (p x)),
      count-not p population,
      count-not p drawn,
    )

module _ (d : Draw) (s : IsSample d) (ranks : List (Uuid × ℕ)) (rank : ℕ)
    (c : LotteryCampaign) where
  -- Where there is a seat for each candidate, every fan among them is drawn.
  all_drawn :
      (sold : TicketType) (st : Rounds) (u : Uuid)
      → count (is_candidate ranks rank c st) st.entries ≤ sold.total_quantity - sold.sold_quantity
      → count (λ e. is_candidate ranks rank c st e && is_of_user u e) st.entries
        ≤ count (is_of_user u) (draw_winners d ranks rank c sold st)
  unfolding draw_winners
  all_drawn sold st u room =
      let population = filter (is_candidate ranks rank c st) st.entries in
      let free = sold.total_quantity - sold.sold_quantity in
      let whole : min (length population) free ≡ length population =
        omega (arith, room, length-filter (is_candidate ranks rank c st) st.entries) in
      omega (
        arith,
        sample_all d s rank c.id population (is_of_user u),
        count-filter (is_of_user u) (is_candidate ranks rank c st) st.entries,
        ap (λ k. count (is_of_user u) (d.sample rank c.id population k)) whole,
      )

  -- So no candidate is left.
  none_left :
      (sold : TicketType) (st : Rounds)
      → count (is_candidate ranks rank c st) st.entries ≤ sold.total_quantity - sold.sold_quantity
      → let st' = award d sold c (draw_winners d ranks rank c sold st) st in
        count (is_candidate ranks rank c st') st'.entries ≡ 0
  none_left sold st room =
      let winners = draw_winners d ranks rank c sold st in
      let st' = award d sold c winners st in
      elim (count-cases (is_candidate ranks rank c st') (λ e. e.user_id) st'.entries) [
        | inl z ↦ z
        | inr (x, t, more) ↦
            let won = count_pos-any (is_of_user x.user_id) winners (
              omega (
                arith,
                more,
                all_drawn sold st x.user_id room,
                count_candidates-award d ranks rank c (is_of_user x.user_id) sold c winners st,
              )) in
            ground (arith, t, won, contains_won-award d sold c x.user_id winners st)
      ]

  -- Where there are as many candidates as seats, the tier is full.
  full_now :
      (sold : TicketType) (st : Rounds)
      → sold.total_quantity - sold.sold_quantity ≤ count (is_candidate ranks rank c st) st.entries
      → tier sold.id st.ticket_types ≡ some sold
      → IsFull sold.id (round_result d sold c (draw_winners d ranks rank c sold st) st).ticket_types
  unfolding round_result draw_winners
  full_now sold st few seen x h =
      let winners = draw_winners d ranks rank c sold st in
      let population = filter (is_candidate ranks rank c st) st.entries in
      let free = sold.total_quantity - sold.sold_quantity in
      let drawn : length winners ≡ free = omega (
        arith,
        length-filter (is_candidate ranks rank c st) st.entries,
        s.size rank c.id population (min (length population) free) (omega arith),
      ) in
      ground (
        arith,
        drawn,
        seen,
        rw (ticket_types-award d sold c winners st) at h,
        find-update (λ y. y.id) sold.id sold.id (sell d (length winners)) st.ticket_types
            (λ y. refl),
      )

  settles :
      (sold : TicketType) (st : Rounds)
      → sold.id ≡ c.ticket_type_id
      → tier sold.id st.ticket_types ≡ some sold
      → (count (is_candidate ranks rank c st) st.entries ≤ sold.total_quantity - sold.sold_quantity)
        ⊎ (sold.total_quantity - sold.sold_quantity
            ≤ count (is_candidate ranks rank c st) st.entries)
      → Settled ranks rank c (round_result d sold c (draw_winners d ranks rank c sold st) st)
  unfolding round_result
  settles sold st same seen (inl room) = inl (none_left sold st room)
  settles sold st same seen (inr few) = inr (
      subst
        (λ k.
          IsFull k (round_result d sold c (draw_winners d ranks rank c sold st) st).ticket_types)
        same (full_now sold st few seen))

  pub Turn-settles : (st st' : Rounds) → Turn d ranks rank c st st' → Settled ranks rank c st'
  Turn-settles st st' (sold, seen, inl (full, e)) =
      rw e (inr (λ x h. ground (arith, h, seen, full)))
  Turn-settles st st' (sold, seen, inr (_, e)) =
      let same = key-find (λ y. y.id) c.ticket_type_id st.ticket_types seen in
      let free = sold.total_quantity - sold.sold_quantity in
      rw e (
        settles sold st same (rw (sym same) at seen)
          (le_total (count (is_candidate ranks rank c st) st.entries) free))
