-- ===== src/Lottery/Rounds/Seats.antt =====
-- Seats: what the rounds sell in each tier, and the tickets that they issue for it.
use i_dolly_backend.Lottery.Rounds.{
  Draw, IsSample, Rounds, award_one, award, round_result, sell, new_ticket, draw_winners,
  draw_ranks, lose_entries, lose_one, run_rounds, is_candidate,
}
use i_dolly_backend.Lottery.Rounds.Induction.{
  Turn, draw_campaigns-keeps, draw_ranks-keeps, run_rounds-split,
}
use i_dolly_backend.Prelude.{
  ℕ, ◌+◌, ◌-◌, ◌≤◌, min, ◌≡◌, refl, ◌∙◌, sym, ap, subst, inl, inr, Bool, Option, some, List, [],
  ◌∷◌, arith, if◌then◌else◌, ◌==◌, find, filter, update, length, count, find-update, key-find,
  count-append, Option-cases,
}
use i_dolly_backend.Tables.{Uuid, TicketType, LotteryCampaign, LotteryEntry, Ticket}
use mathlib.Core.Option

abbrev pub tier : Uuid → List TicketType → Option TicketType
tier k = find (λ tt. tt.id == k)

abbrev pub is_for_tier : Uuid → Ticket → Bool
is_for_tier k t = t.ticket_type_id == k

module _ (d : Draw) (ticket_type : TicketType) (campaign : LotteryCampaign) where
  pub ticket_types-award :
      (winners : List LotteryEntry) (st : Rounds)
      → (award d ticket_type campaign winners st).ticket_types ≡ st.ticket_types
  unfolding award award_one
  ticket_types-award [] st = refl
  ticket_types-award (w ∷ winners) st =
      ticket_types-award winners (award_one d ticket_type campaign w st)

  pub count-award :
      (k : Uuid) (winners : List LotteryEntry) (st : Rounds)
      → count (is_for_tier k) (award d ticket_type campaign winners st).new_tickets
        ≡ count (is_for_tier k) st.new_tickets + (if ticket_type.id == k then length winners else 0)
  unfolding award award_one
  count-award k [] st = ground arith
  count-award k (w ∷ winners) st = ground (
    arith,
    count-award k winners (award_one d ticket_type campaign w st),
    count-append (is_for_tier k) st.new_tickets (new_ticket d ticket_type campaign w ∷ []),
  )

-- Every tier is the one of the start, with the tickets issued for it added to its sales.
abbrev pub Sells : Draw → List TicketType → Rounds → Type 0
Sells d base st =
    (k : Uuid)
    → tier k st.ticket_types
      ≡ Option.map (sell d (count (is_for_tier k) st.new_tickets)) (tier k base)

-- Before the first ticket nothing has been sold.
none_sold : (d : Draw) (st : Rounds) → st.new_tickets ≡ [] → Sells d st.ticket_types st
none_sold d st e k = elim (Option-cases (tier k st.ticket_types)) [
  | inl x ↦ ground (arith, x)
  | inr (y, x) ↦ ground (arith, x, e)
]

module _ (d : Draw) (base : List TicketType) where
  -- Selling `n` more of a tier, where the tickets for that tier have become `n` more.
  sold_more :
      (j k n sold sold' : ℕ) (tts : List TicketType)
      → tier k tts ≡ Option.map (sell d sold) (tier k base)
      → sold' ≡ sold + (if j == k then n else 0)
      → tier k (update (λ tt. tt.id == j) (sell d n) tts) ≡ Option.map (sell d sold') (tier k base)
  sold_more j k n sold sold' tts before more =
      ground (arith, find-update (λ tt. tt.id) j k (sell d n) tts (λ x. refl))

  round_result-Sells :
      (tt : TicketType) (campaign : LotteryCampaign) (winners : List LotteryEntry) (st : Rounds)
      → Sells d base st
      → Sells d base (round_result d tt campaign winners st)
  unfolding round_result
  round_result-Sells tt campaign winners st inv k =
      rw (ticket_types-award d tt campaign winners st) (
        sold_more tt.id k (length winners) _ _ st.ticket_types (inv k)
          (count-award d tt campaign k winners st))

  Turn-Sells :
      (ranks : List (Uuid × ℕ)) (rank : ℕ) (campaign : LotteryCampaign) (st st' : Rounds)
      → Turn d ranks rank campaign st st'
      → Sells d base st
      → Sells d base st'
  Turn-Sells ranks rank campaign st st' (_, _, inl (_, e)) inv = rw e inv
  Turn-Sells ranks rank campaign st st' (sold, _, inr (_, e)) inv =
      rw e (round_result-Sells sold campaign (draw_winners d ranks rank campaign sold st) st inv)

  pub draw_ranks-Sells :
      (ranks : List (Uuid × ℕ)) (campaigns : List LotteryCampaign) (left rank : ℕ)
      → (st st' : Rounds) → draw_ranks d ranks campaigns left rank st ≡ some st'
      → Sells d base st
      → Sells d base st'
  draw_ranks-Sells ranks campaigns left rank st st' h inv =
      draw_ranks-keeps d ranks (λ _. Sells d base) (Turn-Sells ranks) campaigns
        (λ rank. draw_campaigns-keeps d ranks (λ _. Sells d base) (Turn-Sells ranks) rank campaigns)
        left rank st st' h inv

-- The loop over the losers leaves the tiers and the tickets alone.
pub lose_entries_keeps_sales :
    (d : Draw) (entries : List LotteryEntry) (st : Rounds)
    → ((lose_entries d entries st).ticket_types ≡ st.ticket_types)
      × ((lose_entries d entries st).new_tickets ≡ st.new_tickets)
unfolding lose_entries lose_one
lose_entries_keeps_sales d [] st = (refl, refl)
lose_entries_keeps_sales d (e ∷ entries) st =
    ground (arith, lose_entries_keeps_sales d entries (lose_one d e st))

-- No tier has sold more than its total.
abbrev pub Fits : List TicketType → Type 0
Fits tiers =
    (k : Uuid) (x : TicketType) → tier k tiers ≡ some x → x.sold_quantity ≤ x.total_quantity

-- Selling `n` more of one tier that has room for them.
fits_sold :
    (d : Draw) (j k n : ℕ) (tiers : List TicketType)
    → Fits tiers
    → ((y : TicketType) → tier j tiers ≡ some y → n ≤ y.total_quantity - y.sold_quantity)
    → (x : TicketType) → tier k (update (λ y. y.id == j) (sell d n) tiers) ≡ some x
    → x.sold_quantity ≤ x.total_quantity
fits_sold d j k n tiers inv room x h = elim (Option-cases (tier k tiers)) [
  | inl e ↦ ground (arith, e, find-update (λ y. y.id) j k (sell d n) tiers (λ y. refl))
  | inr (y, e) ↦
      ground (arith, e, inv k y e, room y, find-update (λ y. y.id) j k (sell d n) tiers (λ y. refl))
]

module _ (d : Draw) (s : IsSample d) (ranks : List (Uuid × ℕ)) where
  -- The sample is never larger than the seats left.
  pub draw_winners-le :
      (rank : ℕ) (campaign : LotteryCampaign) (x : TicketType) (st : Rounds)
      → length (draw_winners d ranks rank campaign x st) ≤ x.total_quantity - x.sold_quantity
  unfolding draw_winners
  draw_winners-le rank campaign x st =
      let candidates = filter (is_candidate ranks rank campaign st) st.entries in
      let free = x.total_quantity - x.sold_quantity in
      omega (arith, s.size rank campaign.id candidates (min (length candidates) free) (omega arith))

  round_result-Fits :
      (sold : TicketType) (campaign : LotteryCampaign) (winners : List LotteryEntry) (st : Rounds)
      → tier sold.id st.ticket_types ≡ some sold
      → length winners ≤ sold.total_quantity - sold.sold_quantity
      → Fits st.ticket_types
      → Fits (round_result d sold campaign winners st).ticket_types
  unfolding round_result
  round_result-Fits sold campaign winners st seen room inv k x h =
      fits_sold d sold.id k (length winners) st.ticket_types inv
        (λ y e. ground (arith, room, seen, e)) x
        (rw (ticket_types-award d sold campaign winners st) at h)

  Turn-Fits :
      (rank : ℕ) (campaign : LotteryCampaign) (st st' : Rounds)
      → Turn d ranks rank campaign st st'
      → Fits st.ticket_types
      → Fits st'.ticket_types
  Turn-Fits rank campaign st st' (_, _, inl (_, e)) inv k x h = inv k x (rw e at h)
  Turn-Fits rank campaign st st' (sold, seen, inr (_, e)) inv k x h =
      round_result-Fits sold campaign (draw_winners d ranks rank campaign sold st) st
        (subst (λ j. tier j st.ticket_types ≡ some sold)
          (sym (key-find (λ y. y.id) campaign.ticket_type_id st.ticket_types seen)) seen)
        (draw_winners-le rank campaign sold st) inv k x (rw e at h)

  pub draw_ranks-Fits :
      (campaigns : List LotteryCampaign) (left rank : ℕ) (st st' : Rounds)
      → draw_ranks d ranks campaigns left rank st ≡ some st'
      → Fits st.ticket_types
      → Fits st'.ticket_types
  draw_ranks-Fits campaigns left rank st st' h inv =
      draw_ranks-keeps d ranks (λ _ x. Fits x.ticket_types) Turn-Fits campaigns
        (λ rank. draw_campaigns-keeps d ranks (λ _ x. Fits x.ticket_types) Turn-Fits rank campaigns)
        left rank st st' h inv

-- What the rounds as a whole do to the tiers: each has sold exactly the tickets issued for it,
-- and none has sold past its total.
pub run_rounds-seats :
    (d : Draw)
    → IsSample d
    → (ranks : List (Uuid × ℕ)) (max_rank : ℕ) (campaigns : List LotteryCampaign) (st st' : Rounds)
    → st.new_tickets ≡ []
    → Fits st.ticket_types
    → run_rounds d ranks max_rank campaigns st ≡ some st'
    → Sells d st.ticket_types st' × Fits st'.ticket_types
run_rounds-seats d s ranks max_rank campaigns st st' none_yet fits h =
    let (drawn, e, final) = run_rounds-split d ranks max_rank campaigns st st' h in
    let (tiers, tickets) = lose_entries_keeps_sales d drawn.entries drawn in
    let sales =
      draw_ranks-Sells d st.ticket_types ranks campaigns max_rank 1 st drawn e
        (none_sold d st none_yet) in
    let tiers' : st'.ticket_types ≡ drawn.ticket_types = ap (λ x. x.ticket_types) final ∙ tiers in
    let tickets' : st'.new_tickets ≡ drawn.new_tickets = ap (λ x. x.new_tickets) final ∙ tickets in
    (
      rw (tiers', tickets') sales,
      rw tiers' (draw_ranks-Fits d s ranks campaigns max_rank 1 st drawn e fits),
    )
