-- ===== src/Ticket/Outcome.antt =====
-- TicketService.checkout_ticket: what it has seen when it returns.
use i_dolly_backend.Database.{Database}
use i_dolly_backend.Payment.{Request, CheckoutData, has_idempotency_key}
use i_dolly_backend.Prelude.{
  ℕ, ◌<◌, ◌≡◌, refl, none, some, arith, Bool, true, false, not, Option, ◌==◌, is_some, leb, subst,
  ==→eq,
}
use i_dolly_backend.Rows.{find_user, find_ticket_type}
use i_dolly_backend.Schema.{is_direct}
use i_dolly_backend.Session.{Session, ok}
use i_dolly_backend.Session.Outcome.{bind-ok, query-by, found-by, guard-by, pure-ok}
use i_dolly_backend.Tables.{Uuid, Ticket, TicketType}
use i_dolly_backend.Tax.{with_tax}
use i_dolly_backend.Ticket.{
  check_direct_sale, checkout_ticket, existing_live_ticket, has_unresolved_lottery_entry,
  is_on_sale, is_fan_user,
}

-- The conditions of a direct sale.
pub record Sellable (req : Request) (user_id ticket_type_id : Uuid) (data' : CheckoutData)
    (db : Database) (tier : TicketType) : Type 0 where
  pub fan : is_fan_user (find_user user_id db) ≡ true
  pub fresh_key : has_idempotency_key data'.idempotency_key db ≡ false
  pub seen : find_ticket_type ticket_type_id db ≡ some tier
  pub direct : is_direct tier.sale_method ≡ true
  pub on_sale : is_on_sale tier.id req.now db ≡ true
  pub room : tier.sold_quantity < tier.total_quantity
  pub no_ticket : existing_live_ticket user_id tier.concert_id db ≡ none
  pub no_entry : has_unresolved_lottery_entry user_id tier.concert_id db ≡ false
  pub price : data'.amount ≡ with_tax tier.price

of_not : (b : Bool) → not b ≡ false → b ≡ true
of_not b h = ground (arith, h)

of_leb : (m n : ℕ) → leb m n ≡ false → n < m
of_leb m n h = ground (arith, h)

of_is_some : {A : Type 0} (o : Option A) → is_some o ≡ false → o ≡ none
of_is_some none h = refl
of_is_some (some a) h = cc

of_amount : (m n : ℕ) → not (m == n) ≡ false → m ≡ n
of_amount m n h = ==→eq m n (of_not (m == n) h)

module _ (req : Request) (user_id ticket_type_id : Uuid) (data' : CheckoutData) where
  -- The checks pass on these conditions alone, and write nothing.
  pub check_direct_sale-ok :
      (s s' : Session) (tier : TicketType)
      → check_direct_sale req user_id ticket_type_id data' s ≡ (ok tier, s')
      → Sellable req user_id ticket_type_id data' s.view tier × (s' ≡ s)
  unfolding check_direct_sale
  check_direct_sale-ok s s' tier h = query-by _ _ s s' tier h λ h.
      guard-by _ _ _ s s' tier h λ fan h. query-by _ _ s s' tier h λ h.
        guard-by _ _ _ s s' tier h λ key h. query-by _ _ s s' tier h λ h.
          found-by _ _ _ s s' tier h λ x seen h. guard-by _ _ _ s s' tier h λ direct h.
            query-by _ _ s s' tier h λ h. guard-by _ _ _ s s' tier h λ on_sale h.
              guard-by _ _ _ s s' tier h λ room h. query-by _ _ s s' tier h λ h.
                guard-by _ _ _ s s' tier h λ no_ticket h. query-by _ _ s s' tier h λ h.
                  guard-by _ _ _ s s' tier h λ no_entry h. guard-by _ _ _ s s' tier h λ price h.
                    let (same, kept) = pure-ok x tier s s' h in
                    (
                      subst (Sellable req user_id ticket_type_id data' s.view) same (record {
                        fan = of_not _ fan;
                        fresh_key = key;
                        seen = seen;
                        direct = of_not _ direct;
                        on_sale = of_not _ on_sale;
                        room = of_leb _ _ room;
                        no_ticket = of_is_some _ no_ticket;
                        no_entry = no_entry;
                        price = of_amount _ _ price;
                      }),
                      kept,
                    )

  -- A direct sale that returns a ticket found it sellable; so it raises in every other case.
  pub checkout_ticket-Sellable :
      (s s' : Session) (ticket : Ticket)
      → checkout_ticket req user_id ticket_type_id data' s ≡ (ok ticket, s')
      → (tier : TicketType) × Sellable req user_id ticket_type_id data' s.view tier
  unfolding checkout_ticket
  checkout_ticket-Sellable s s' ticket h =
      let (tier, mid, checked, _) =
        bind-ok (check_direct_sale req user_id ticket_type_id data') _ s s' ticket h in
      (tier, (check_direct_sale-ok s mid tier checked).0)
