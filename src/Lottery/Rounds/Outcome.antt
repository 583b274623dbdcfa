-- ===== src/Lottery/Rounds/Outcome.antt =====
-- Outcome: what a turn and the losing loop do to the loaded entries.
use i_dolly_backend.Lottery.Rounds.{
  Draw, IsSample, Rounds, add, award_one, award, mark_won, draw_winners, round_result, lose_entries,
  lose_one, is_candidate, has_rank,
}
use i_dolly_backend.Lottery.Rounds.Induction.{Turn}
use i_dolly_backend.Lottery.Rounds.Winners.{contains-add, count_entries-award}
use i_dolly_backend.Prelude.{
  ℕ, ◌+◌, ◌-◌, ◌≤◌, ◌≡◌, refl, inl, inr, Bool, ◌&&◌, not, List, [], ◌∷◌, arith, ◌==◌, ==_refl, All,
  All-map, filter, update, length, min, count, contains, count-filter, count_mono, count-split,
}
use i_dolly_backend.Schema.{is_pending_entry}
use i_dolly_backend.Tables.{Uuid, TicketType, LotteryCampaign, LotteryEntry}

-- An entry that is decided although its fan has won nothing.
abbrev pub is_stray : List Uuid → LotteryEntry → Bool
is_stray won e = not (is_pending_entry e.status) && not (contains e.user_id won)

-- An entry with the winner's id that is another fan's.
abbrev pub is_foreign : LotteryEntry → LotteryEntry → Bool
is_foreign w e = e.id == w.id && not (e.user_id == w.user_id)

abbrev pub has_id : Uuid → LotteryEntry → Bool
has_id k e = e.id == k

-- Ids are primary keys, and only winners' entries are decided before the last loop.
pub record IsDecided (st : Rounds) : Type 0 where
  pub keyed : (k : Uuid) → count (has_id k) st.entries ≤ 1
  pub no_stray : count (is_stray st.won_user_ids) st.entries ≡ 0

stray_marked :
    (d : Draw) (w : LotteryEntry) (won : List Uuid) (entries : List LotteryEntry)
    → count (is_foreign w) entries ≡ 0
    → count (is_stray won) entries ≡ 0
    → count (is_stray (add w.user_id won)) (update (λ e. e.id == w.id) (mark_won d) entries) ≡ 0
stray_marked d w won [] f h = refl
stray_marked d w won (e ∷ entries) f h =
    ground (arith, stray_marked d w won entries, f, h, contains-add e.user_id w.user_id won)

module _ (d : Draw) (sold : TicketType) (campaign : LotteryCampaign) where
  award-no_stray :
      (winners : List LotteryEntry) (st : Rounds)
      → All (λ w. count (is_foreign w) st.entries ≡ 0) winners
      → count (is_stray st.won_user_ids) st.entries ≡ 0
      → count
          (is_stray (award d sold campaign winners st).won_user_ids)
          (award d sold campaign winners st).entries
        ≡ 0
  unfolding award award_one
  award-no_stray [] st own h = h
  award-no_stray (w ∷ winners) st own h =
      let next = award_one d sold campaign w st in
      award-no_stray winners next
        (All-map (λ x. count (is_foreign x) st.entries ≡ 0)
          (λ x. count (is_foreign x) next.entries ≡ 0) winners
          (λ x z.
            omega (
              arith,
              z,
              count_entries-award d sold campaign (is_foreign x) (λ e. refl) (w ∷ []) st,
            ))
          own.1)
        (stray_marked d w st.won_user_ids st.entries own.0 h)

abbrev is_same : LotteryEntry → LotteryEntry → Bool
is_same w e = e.id == w.id && e.user_id == w.user_id

own_first :
    (w : LotteryEntry) (xs ws : List LotteryEntry)
    → count (is_same w) (w ∷ ws) ≤ count (is_same w) xs
    → 1 ≤ count (is_same w) xs
own_first w xs ws h = ground (arith, h, ==_refl w.id, ==_refl w.user_id)

-- Where a list is sampled from keyed entries, each of its items is the one entry with its id.
own_entries :
    (entries winners : List LotteryEntry)
    → ((k : Uuid) → count (has_id k) entries ≤ 1)
    → ((p : LotteryEntry → Bool) → count p winners ≤ count p entries)
    → All (λ w. count (is_foreign w) entries ≡ 0) winners
own_entries entries [] keyed fair = tt
own_entries entries (w ∷ winners) keyed fair = (
  omega (
    arith,
    keyed w.id,
    count-split (has_id w.id) (λ e. e.user_id == w.user_id) entries,
    own_first w entries winners (fair (is_same w)),
  ),
  own_entries entries winners keyed (λ p. ground (arith, fair p)),
)

module _ (d : Draw) (s : IsSample d) (ranks : List (Uuid × ℕ)) where
  drawn_from_entries :
      (rank : ℕ) (campaign : LotteryCampaign) (sold : TicketType) (st : Rounds)
      → (p : LotteryEntry → Bool)
      → count p (draw_winners d ranks rank campaign sold st) ≤ count p st.entries
  unfolding draw_winners
  drawn_from_entries rank campaign sold st p =
      let population = filter (is_candidate ranks rank campaign st) st.entries in
      omega (
        arith,
        s.fair rank campaign.id population
            (min (length population) (sold.total_quantity - sold.sold_quantity)) p,
        count-filter p (is_candidate ranks rank campaign st) st.entries,
        count_mono (λ e. is_candidate ranks rank campaign st e && p e) p st.entries
            (λ e h. ground (arith, h)),
      )

  round_result-IsDecided :
      (sold : TicketType) (campaign : LotteryCampaign) (winners : List LotteryEntry) (st : Rounds)
      → ((p : LotteryEntry → Bool) → count p winners ≤ count p st.entries)
      → IsDecided st
      → IsDecided (round_result d sold campaign winners st)
  unfolding round_result
  round_result-IsDecided sold campaign winners st fair inv = record {
    keyed = λ k.
        omega (
          arith,
          inv.keyed k,
          count_entries-award d sold campaign (has_id k) (λ e. refl) winners st,
        );
    no_stray =
        award-no_stray d sold campaign winners st (own_entries st.entries winners inv.keyed fair)
          inv.no_stray;
  }

  pub Turn-IsDecided :
      (rank : ℕ) (campaign : LotteryCampaign) (st st' : Rounds)
      → Turn d ranks rank campaign st st'
      → IsDecided st
      → IsDecided st'
  Turn-IsDecided rank campaign st st' (_, _, inl (_, e)) inv = rw e inv
  Turn-IsDecided rank campaign st st' (sold, _, inr (_, e)) inv = rw e (
      round_result-IsDecided sold campaign (draw_winners d ranks rank campaign sold st) st
        (drawn_from_entries rank campaign sold st) inv)

  -- What a turn never changes of the entries.
  pub Turn-count :
      (q : LotteryEntry → Bool)
      → ((e : LotteryEntry) → q (mark_won d e) ≡ q e)
      → (n rank : ℕ) (campaign : LotteryCampaign) (st st' : Rounds)
      → Turn d ranks rank campaign st st'
      → count q st.entries ≡ n
      → count q st'.entries ≡ n
  unfolding round_result
  Turn-count q kept n rank campaign st st' (_, _, inl (_, e)) h = rw e h
  Turn-count q kept n rank campaign st st' (sold, _, inr (_, e)) h = rw e (
      omega (
        arith,
        h,
        count_entries-award d sold campaign q kept (draw_winners d ranks rank campaign sold st) st,
      ))

-- An entry to the campaign, at the rank, of a fan who has won nothing.
abbrev pub is_unserved : List (Uuid × ℕ) → ℕ → LotteryCampaign → List Uuid → LotteryEntry → Bool
is_unserved ranks rank c won e =
    (e.campaign_id == c.id && has_rank ranks rank e) && not (contains e.user_id won)

pub unserved-le :
    (ranks : List (Uuid × ℕ)) (rank : ℕ) (c : LotteryCampaign) (st : Rounds)
    → (entries : List LotteryEntry)
    → count (is_unserved ranks rank c st.won_user_ids) entries
      ≤ count (is_candidate ranks rank c st) entries + count (is_stray st.won_user_ids) entries
unserved-le ranks rank c st [] = omega arith
unserved-le ranks rank c st (e ∷ entries) = ground (arith, unserved-le ranks rank c st entries)

-- The last loop changes no entry of a fan who has won.
pub won-lose_entries :
    (d : Draw) (entries : List LotteryEntry) (st : Rounds)
    → (lose_entries d entries st).won_user_ids ≡ st.won_user_ids
unfolding lose_entries lose_one
won-lose_entries d [] st = refl
won-lose_entries d (e ∷ entries) st = ground (arith, won-lose_entries d entries (lose_one d e st))
