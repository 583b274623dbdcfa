-- ===== src/Lottery/Rounds/Winners.antt =====
-- Winners: the tickets that one draw issues to one fan, over all campaigns and ranks.
use i_dolly_backend.Lottery.Rounds.{
  Draw, IsSample, Rounds, add, award_one, award, new_ticket, mark_won, draw_winners, round_result,
  run_rounds, is_candidate,
}
use i_dolly_backend.Lottery.Rounds.Induction.{
  Turn, draw_campaigns-keeps, draw_ranks-keeps, run_rounds-split,
}
use i_dolly_backend.Lottery.Rounds.Seats.{lose_entries_keeps_sales}
use i_dolly_backend.Prelude.{
  ℕ, ◌+◌, ◌-◌, ◌≤◌, ◌≡◌, refl, ◌∙◌, ap, inl, inr, Bool, true, false, ◌&&◌, ◌||◌, List, [], ◌∷◌,
  some, arith, ◌==◌, filter, length, min, count, any, contains, count-append, count-update_same,
  count-filter, count_mono, count-none, any-eq_false, Bool-cases, ==→eq, ==_refl,
}
use i_dolly_backend.Tables.{Uuid, TicketType, LotteryCampaign, LotteryEntry, Ticket}

abbrev pub is_of_user : Uuid → LotteryEntry → Bool
is_of_user u e = e.user_id == u

abbrev pub is_ticket_of : Uuid → Ticket → Bool
is_ticket_of u t = t.user_id == u

abbrev pub is_entry_of : Uuid → Uuid → LotteryEntry → Bool
is_entry_of campaign u e = e.campaign_id == campaign && e.user_id == u

pub contains-add : (u x : Uuid) (xs : List Uuid) → contains u (add x xs) ≡ (u == x || contains u xs)
contains-add u x xs = elim (Bool-cases (u == x)) [
  | inl same ↦
      ground (
        arith,
        same,
        ==_refl u,
        ap (λ k. contains k xs) (==→eq u x same),
        Bool-cases (contains x xs),
      )
  | inr other ↦ ground (arith, other)
]

module _ (d : Draw) (sold : TicketType) (campaign : LotteryCampaign) where
  pub count_tickets-award :
      (u : Uuid) (winners : List LotteryEntry) (st : Rounds)
      → count (is_ticket_of u) (award d sold campaign winners st).new_tickets
        ≡ count (is_ticket_of u) st.new_tickets + count (is_of_user u) winners
  unfolding award award_one
  count_tickets-award u [] st = omega arith
  count_tickets-award u (w ∷ winners) st = omega (
    arith,
    count_tickets-award u winners (award_one d sold campaign w st),
    count-append (is_ticket_of u) st.new_tickets (new_ticket d sold campaign w ∷ []),
  )

  pub contains_won-award :
      (u : Uuid) (winners : List LotteryEntry) (st : Rounds)
      → contains u (award d sold campaign winners st).won_user_ids
        ≡ (any (is_of_user u) winners || contains u st.won_user_ids)
  unfolding award award_one
  contains_won-award u [] st = refl
  contains_won-award u (w ∷ winners) st = ground (
    arith,
    contains_won-award u winners (award_one d sold campaign w st),
    contains-add u w.user_id st.won_user_ids,
  )

  pub count_entries-award :
      (q : LotteryEntry → Bool)
      → ((e : LotteryEntry) → q (mark_won d e) ≡ q e)
      → (winners : List LotteryEntry) (st : Rounds)
      → count q (award d sold campaign winners st).entries ≡ count q st.entries
  unfolding award award_one
  count_entries-award q h [] st = refl
  count_entries-award q h (w ∷ winners) st =
      count_entries-award q h winners (award_one d sold campaign w st)
      ∙ count-update_same q (λ e. e.id == w.id) (mark_won d) st.entries h

-- Each fan has at most one ticket so far, none before winning, and one entry to each campaign.
pub record OneEach (st : Rounds) : Type 0 where
  pub at_most_one : (u : Uuid) → count (is_ticket_of u) st.new_tickets ≤ 1
  pub none_before :
      (u : Uuid) → contains u st.won_user_ids ≡ false → count (is_ticket_of u) st.new_tickets ≡ 0
  pub one_entry : (c u : Uuid) → count (is_entry_of c u) st.entries ≤ 1

winner_excluded :
    (ranks : List (Uuid × ℕ)) (rank : ℕ) (campaign : LotteryCampaign) (u : Uuid) (st : Rounds)
    → contains u st.won_user_ids ≡ true
    → (e : LotteryEntry) → (is_candidate ranks rank campaign st e && is_of_user u e) ≡ false
winner_excluded ranks rank campaign u st won e = elim (Bool-cases (is_of_user u e)) [
  | inl same ↦
      ground (arith, won, same, ap (λ k. contains k st.won_user_ids) (==→eq e.user_id u same))
  | inr other ↦ ground (arith, other)
]

module _ (d : Draw) (s : IsSample d) (ranks : List (Uuid × ℕ)) where
  -- Of each fan the sample has at most one entry, and none if the fan has won before.
  count-draw_winners :
      (rank : ℕ) (campaign : LotteryCampaign) (sold : TicketType) (u : Uuid) (st : Rounds)
      → count (is_of_user u) (draw_winners d ranks rank campaign sold st)
        ≤ count (λ e. is_candidate ranks rank campaign st e && is_of_user u e) st.entries
  unfolding draw_winners
  count-draw_winners rank campaign sold u st =
      let candidates = filter (is_candidate ranks rank campaign st) st.entries in
      omega (
        arith,
        s.fair rank campaign.id candidates
            (min (length candidates) (sold.total_quantity - sold.sold_quantity)) (is_of_user u),
        count-filter (is_of_user u) (is_candidate ranks rank campaign st) st.entries,
      )

  -- A candidate's fan is one with an entry to this campaign, and has not won.
  one_candidate :
      (rank : ℕ) (campaign : LotteryCampaign) (u : Uuid) (st : Rounds)
      → count (is_entry_of campaign.id u) st.entries ≤ 1
      → count (λ e. is_candidate ranks rank campaign st e && is_of_user u e) st.entries ≤ 1
  one_candidate rank campaign u st h = omega (
    arith,
    count_mono (λ e. is_candidate ranks rank campaign st e && is_of_user u e)
        (is_entry_of campaign.id u) st.entries (λ e t. ground (arith, t)),
  )

  no_candidate :
      (rank : ℕ) (campaign : LotteryCampaign) (u : Uuid) (st : Rounds)
      → contains u st.won_user_ids ≡ true
      → count (λ e. is_candidate ranks rank campaign st e && is_of_user u e) st.entries ≡ 0
  no_candidate rank campaign u st won =
      count-none (λ e. is_candidate ranks rank campaign st e && is_of_user u e) st.entries
        λ e. winner_excluded ranks rank campaign u st won e

  round_result-OneEach :
      (sold : TicketType) (campaign : LotteryCampaign) (winners : List LotteryEntry) (st : Rounds)
      → ((u : Uuid) → count (is_of_user u) winners ≤ 1)
      → ((u : Uuid) → contains u st.won_user_ids ≡ true → count (is_of_user u) winners ≡ 0)
      → OneEach st
      → OneEach (round_result d sold campaign winners st)
  unfolding round_result
  round_result-OneEach sold campaign winners st few none inv = record {
    at_most_one = λ u. ground (
      arith,
      few u,
      none u,
      inv.at_most_one u,
      inv.none_before u,
      count_tickets-award d sold campaign u winners st,
      Bool-cases (contains u st.won_user_ids),
    );
    none_before = λ u fresh. ground (
      arith,
      inv.none_before u,
      count_tickets-award d sold campaign u winners st,
      fresh,
      contains_won-award d sold campaign u winners st,
      any-eq_false (is_of_user u) winners,
    );
    one_entry = λ c u. omega (
      arith,
      inv.one_entry c u,
      count_entries-award d sold campaign (is_entry_of c u) (λ e. refl) winners st,
    );
  }

  Turn-OneEach :
      (rank : ℕ) (campaign : LotteryCampaign) (st st' : Rounds)
      → Turn d ranks rank campaign st st'
      → OneEach st
      → OneEach st'
  Turn-OneEach rank campaign st st' (_, _, inl (_, e)) inv = rw e inv
  Turn-OneEach rank campaign st st' (sold, _, inr (_, e)) inv = rw e (
      round_result-OneEach sold campaign (draw_winners d ranks rank campaign sold st) st
        (λ u. omega (
          arith,
          count-draw_winners rank campaign sold u st,
          one_candidate rank campaign u st (inv.one_entry campaign.id u),
        ))
        (λ u won.
          omega (
            arith,
            count-draw_winners rank campaign sold u st,
            no_candidate rank campaign u st won,
          ))
        inv)

-- In one draw no fan is issued two tickets, where no fan has two entries to one campaign.
pub run_rounds-winners :
    (d : Draw)
    → IsSample d
    → (ranks : List (Uuid × ℕ)) (max_rank : ℕ) (campaigns : List LotteryCampaign) (st st' : Rounds)
    → st.new_tickets ≡ []
    → ((c u : Uuid) → count (is_entry_of c u) st.entries ≤ 1)
    → run_rounds d ranks max_rank campaigns st ≡ some st'
    → (u : Uuid) → count (is_ticket_of u) st'.new_tickets ≤ 1
run_rounds-winners d s ranks max_rank campaigns st st' none_yet one h u =
    let (drawn, e, final) = run_rounds-split d ranks max_rank campaigns st st' h in
    let start : OneEach st = record {
      at_most_one = λ u. ground (arith, none_yet);
      none_before = λ u _. ground (arith, none_yet);
      one_entry = one;
    } in
    let all =
      draw_ranks-keeps d ranks (λ _. OneEach) (Turn-OneEach d s ranks) campaigns
        (λ rank.
          draw_campaigns-keeps d ranks (λ _. OneEach) (Turn-OneEach d s ranks) rank campaigns)
        max_rank 1 st drawn e start in
    ground (arith, all.at_most_one u, (lose_entries_keeps_sales d drawn.entries drawn).1, final)
