-- ===== src/Ticket/Limit.antt =====
-- TicketService.add_ticket and the trigger fn_enforce_one_ticket_per_concert: live tickets for each
-- fan and concert.
use i_dolly_backend.Database.{Database}
use i_dolly_backend.Prelude.{
  ◌≤◌, ◌≡◌, refl, Bool-cases, List, [], ◌∷◌, Option, arith, any, count, count-append, find, inl,
  inr, none, some, true, false, ◌==◌, ◌&&◌, ==→eq,
}
use i_dolly_backend.Rows.{insert_ticket}
use i_dolly_backend.Session.{Session}
use i_dolly_backend.Session.Invariant.{Keeps, Holds, Keeps-write, keeps_rules}
use i_dolly_backend.Tables.{Ticket, TicketType, Uuid}
use i_dolly_backend.Ticket.Admin.{add_ticket}
use i_dolly_backend.Trigger.{enforce_one_ticket_per_concert, is_live_ticket_of, ticket_triggers}

-- The ticket types have ids of their own, and no fan has two live tickets for one concert.
pub record OneTicketEach (db : Database) : Type 0 where
  pub keyed : (k : Uuid) → count (λ x. x.id == k) db.ticket_types ≤ 1
  pub one : (u concert_id : Uuid) → count (is_live_ticket_of db u concert_id) db.tickets ≤ 1

any-count_zero :
    (j k : Uuid) (tiers : List TicketType)
    → count (λ x. x.id == j) tiers ≡ 0
    → any (λ x. x.id == j && x.concert_id == k) tiers ≡ false
any-count_zero j k [] h = refl
any-count_zero j k (y ∷ tiers) h = ground (arith, h, any-count_zero j k tiers)

-- The concert of a ticket type, by the join and by its row.
concert_of_found :
    (j k : Uuid) (tiers : List TicketType)
    → count (λ x. x.id == j) tiers ≤ 1
    → any (λ x. x.id == j && x.concert_id == k) tiers ≡ true
    → (x : TicketType) × (find (λ x. x.id == j) tiers ≡ some x) × (x.concert_id ≡ k)
concert_of_found j k [] h a = cc
concert_of_found j k (y ∷ tiers) h a = elim (Bool-cases (y.id == j)) [
  | inl same ↦ (
    y,
    ground (arith, same),
    ==→eq y.concert_id k (ground (arith, h, a, same, any-count_zero j k tiers)),
  )
  | inr other ↦
      let (x, f, c) =
        concert_of_found j k tiers (ground (arith, h, other)) (ground (arith, a, other)) in
      (x, ground (arith, other, f), c)
]

enforce_one_ticket_per_concert-none :
    (db : Database) (t : Ticket) (x : TicketType)
    → ticket_triggers db t ≡ none
    → find (λ x. x.id == t.ticket_type_id) db.ticket_types ≡ some x
    → count (is_live_ticket_of db t.user_id x.concert_id) db.tickets ≡ 0
unfolding ticket_triggers enforce_one_ticket_per_concert
enforce_one_ticket_per_concert-none db t x h f = ground (arith, h, f)

insert_ticket-OneTicketEach : (t : Ticket) → Keeps OneTicketEach (insert_ticket t)
unfolding insert_ticket
insert_ticket-OneTicketEach t = Keeps-write OneTicketEach _ _ (λ db e h. record {
  keyed = h.keyed;
  one = λ u k. elim (Bool-cases (is_live_ticket_of db u k t)) [
    | inl own ↦
        let (x, f, c) =
          concert_of_found t.ticket_type_id k db.ticket_types (h.keyed t.ticket_type_id)
            (ground (arith, own)) in
        let mine : t.user_id ≡ u = ==→eq t.user_id u (ground (arith, own)) in
        let none_yet = enforce_one_ticket_per_concert-none db t x e f in
        ground (
          arith,
          own,
          rw (mine, c) at none_yet,
          count-append (is_live_ticket_of db u k) db.tickets (t ∷ []),
        )
    | inr other ↦
        ground
          (arith, other, h.one u k, count-append (is_live_ticket_of db u k) db.tickets (t ∷ []))
  ];
})

-- A ticket that an admin adds is the fan's only live one for its concert.
pub add_ticket-OneTicketEach :
    (ticket_id ticket_type_id user_id : Uuid) (entry_id : Option Uuid)
    → (s : Session) → Holds OneTicketEach s
    → Holds OneTicketEach (add_ticket ticket_id ticket_type_id user_id entry_id s).1
unfolding add_ticket
add_ticket-OneTicketEach ticket_id ticket_type_id user_id entry_id s h =
    let kept : Keeps OneTicketEach (add_ticket ticket_id ticket_type_id user_id entry_id) =
      search (keeps_rules, insert_ticket-OneTicketEach) depth 30 in
    kept.at s h
