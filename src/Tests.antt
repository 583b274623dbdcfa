-- ===== src/Tests.antt =====
-- The lottery's operations, the orders, the cart and the tax, run on the small database.
use i_dolly_backend.Cart.{add_to_cart}
use i_dolly_backend.Cart.Invariant.{IsPriced, add_to_cart-IsPriced}
use i_dolly_backend.Concert.{manager_scope_violation}
use i_dolly_backend.Database.{Database}
use i_dolly_backend.Error.{Error, ErrorClass, coded, plain}
use i_dolly_backend.Fixtures.{
  db, draw, fan, manager, other_fan, paypal_data, placed_order, request, won_ticket,
}
use i_dolly_backend.Lottery.Atomic.{
  apply_to_lotteries_atomic, draw_lottery_atomic, set_preferences_atomic, besides_notifications,
}
use i_dolly_backend.Lottery.Draw.{
  commit_draw, draw_lottery, insert_tickets, save_rounds, user_scope_violation, write_back,
}
use i_dolly_backend.Lottery.Entry.{
  apply_to_lotteries, insert_entry, open_campaign, stage_entries, stage_entry,
}
use i_dolly_backend.Lottery.Invariant.{EntriesCapped, apply_to_lotteries-EntriesCapped}
use i_dolly_backend.Lottery.Preference.{
  campaign_by_tier, campaigns_for_tiers, check_campaigns, check_ranking_change_allowed,
  current_tier_ids, delete_ranking, has_entered, insert_preference, insert_ranking, check_ranked,
  set_preferences,
}
use i_dolly_backend.Lottery.Ranking.{ranking, set_preferences-ranking, with_rows}
use i_dolly_backend.Lottery.Rounds.{
  award, award_one, draw_campaign, draw_campaigns, draw_ranks, draw_winners, lose_entries, lose_one,
  rank_entries, round_result, run_rounds,
}
use i_dolly_backend.Notification.{notice}
use i_dolly_backend.Notification.Inbox.{
  count_unread, mark_all_as_read, mark_all_as_read-count_unread,
}
use i_dolly_backend.Order.{
  check_cart, checkout, create_payment, insert_order, insert_order_item, insert_order_items,
}
use i_dolly_backend.Order.Atomic.{checkout_atomic}
use i_dolly_backend.Order.Finalize.{finalize_for, finalize_found, finalize_paypal_payment}
use i_dolly_backend.Session.Settled.{Outcome}
use i_dolly_backend.Order.Life.{update_shipping_status-cancelled}
use i_dolly_backend.Order.Ship.{manager_order_scope_violation, ship_order}
use i_dolly_backend.Order.Shipped.{cancel_answer, ship_order-cancel_placed_order}
use i_dolly_backend.Order.Once.{finalize_paypal_payment_again}
use i_dolly_backend.Order.Parcel.{cancel_placed_order, find_order_of, update_shipping_status}
use i_dolly_backend.Payment.{Request, charge_by}
use i_dolly_backend.Payment.Finalize.{
  captured_payment, capture_ticket, confirm_ticket, finalize_for_tier, finalize_ticket,
}
use i_dolly_backend.Prelude.{◌+◌, ◌*◌, ◌≤◌, ◌≡◌, [], ◌∷◌, arith, false, map, none, refl, some}
use i_dolly_backend.Rows.{insert_ticket, sell_seat}
use i_dolly_backend.Schema.{
  NotificationType, OrderStatus, PaymentGateway, PaymentStatus, ShippingStatus, TicketStatus,
  UserRole,
}
use i_dolly_backend.Session.{◌>>=◌, err, ok, start}
use i_dolly_backend.Session.Invariant.{Holds}
use i_dolly_backend.Tables.{Payment, Order, User}
use i_dolly_backend.Tax.{with_tax, with_tax-nearest}
use i_dolly_backend.Ticket.{existing_live_ticket}
use i_dolly_backend.Trigger.{
  require_ticket_type_matches_concert, enforce_fan_only_purchase, enforce_lottery_entry_cap,
  enforce_one_ticket_per_concert, enforce_resale_cap, lottery_entry_triggers,
  require_lottery_preference, ticket_triggers,
}

-- Fan 2 wins in the rounds, but has a live ticket for the concert: the insert is refused.
draw_fails :
    (draw_lottery draw manager 5 (start db)).0 ≡ err (plain ErrorClass.duplicate_concert_ticket)
unfolding draw_lottery user_scope_violation manager_scope_violation rank_entries run_rounds
    draw_ranks draw_campaigns draw_campaign draw_winners round_result award award_one lose_entries
    lose_one commit_draw insert_tickets save_rounds write_back insert_ticket ticket_triggers
    enforce_fan_only_purchase enforce_one_ticket_per_concert ◌>>=◌
draw_fails = refl

draw_lottery_atomic_example : Outcome besides_notifications (draw_lottery draw manager 5) (start db)
draw_lottery_atomic_example =
    draw_lottery_atomic draw manager 5 (start db) (plain ErrorClass.duplicate_concert_ticket)
      draw_fails

-- The first campaign takes the entry, and the second does not exist.
apply_fails :
    (apply_to_lotteries 50 (λ k. k + 500) (22 ∷ 99 ∷ []) fan (start db)).0
    ≡ err (plain ErrorClass.not_found)
unfolding apply_to_lotteries stage_entries stage_entry open_campaign insert_entry
    existing_live_ticket lottery_entry_triggers enforce_lottery_entry_cap enforce_fan_only_purchase
    require_lottery_preference ◌>>=◌
apply_fails = refl

apply_to_lotteries_atomic_example :
    (apply_to_lotteries 50 (λ k. k + 500) (22 ∷ 99 ∷ []) fan (start db)).1.committed ≡ db
apply_to_lotteries_atomic_example =
    apply_to_lotteries_atomic 50 (λ k. k + 500) (22 ∷ 99 ∷ []) fan (start db)
      (plain ErrorClass.not_found) apply_fails

capped : EntriesCapped db
capped = λ k u c h. ground (arith, h)

apply_to_lotteries-EntriesCapped_example :
    Holds EntriesCapped (apply_to_lotteries 50 (λ k. k + 500) (22 ∷ []) fan (start db)).1
apply_to_lotteries-EntriesCapped_example =
    apply_to_lotteries-EntriesCapped 50 (λ k. k + 500) (22 ∷ []) fan (start db) (capped, capped)

ranking_fails :
    (set_preferences 50 6 (14 ∷ 14 ∷ []) fan (start db)).0
    ≡ err (coded ErrorClass.bad_request "duplicate_ranked_tier")
unfolding set_preferences check_ranked ◌>>=◌
ranking_fails = refl

set_preferences_atomic_example :
    (set_preferences 50 6 (14 ∷ 14 ∷ []) fan (start db)).1.committed ≡ db
set_preferences_atomic_example =
    set_preferences_atomic 50 6 (14 ∷ 14 ∷ []) fan (start db)
      (coded ErrorClass.bad_request "duplicate_ranked_tier") ranking_fails

-- The order and its items are flushed when PayPal fails.
checkout_fails :
    (checkout request 1 95 (paypal_data 2200) (start db)).0 ≡ err (plain ErrorClass.gateway_error)
unfolding checkout check_cart insert_order insert_order_item insert_order_items create_payment
    charge_by with_tax enforce_fan_only_purchase enforce_resale_cap ◌>>=◌
checkout_fails = refl

checkout_atomic_example : Outcome (λ x. x) (checkout request 1 95 (paypal_data 2200)) (start db)
checkout_atomic_example =
    checkout_atomic request 1 95 (paypal_data 2200) (start db) (plain ErrorClass.gateway_error)
      checkout_fails

-- A direct sale that the buyer has approved at PayPal, whose capture completes.
abbrev approved_payment : Payment
approved_payment = record {
  id = 250;
  order_id = none;
  ticket_id = some 43;
  user_id = 1;
  amount = 5500;
  status = PaymentStatus.pending;
  payment_gateway = PaymentGateway.paypal;
  is_paid = false;
  pg_order_id = some 400;
  pg_payment_id = none;
  idempotency_key = 301;
}

abbrev approved_db : Database
approved_db = record db {
  tickets = won_ticket 43 12 1 TicketStatus.pending_payment ∷ [];
  payments = approved_payment ∷ [];
}

abbrev captured_request : Request
captured_request = record request { capture_order = λ _. some (some (some 77)) }

sold_test :
    map
      (λ x. x.sold_quantity)
      (finalize_paypal_payment captured_request 400
        (some 1)
        (start approved_db)).1.committed.ticket_types
    ≡ 1 ∷ 2 ∷ 1 ∷ 0 ∷ []
unfolding finalize_paypal_payment finalize_found finalize_for finalize_ticket finalize_for_tier
    capture_ticket confirm_ticket sell_seat ◌>>=◌
sold_test = refl

finalized : finalize_paypal_payment captured_request 400 (some 1) (start approved_db) ≡ (
  ok (some (captured_payment approved_payment (some (some 77)))),
  (finalize_paypal_payment captured_request 400 (some 1) (start approved_db)).1,
)
unfolding finalize_paypal_payment finalize_found finalize_for finalize_ticket finalize_for_tier
    capture_ticket confirm_ticket sell_seat ◌>>=◌
finalized = refl

finalize_paypal_payment_again_example :
    finalize_paypal_payment captured_request 400 none
      (finalize_paypal_payment captured_request 400 (some 1) (start approved_db)).1
    ≡ (ok none, (finalize_paypal_payment captured_request 400 (some 1) (start approved_db)).1)
finalize_paypal_payment_again_example =
    finalize_paypal_payment_again captured_request captured_request 400 (some 1) none
      approved_payment (captured_payment approved_payment (some (some 77))) (start approved_db)
      (finalize_paypal_payment captured_request 400 (some 1) (start approved_db)).1 refl refl
      finalized

abbrev cancelled_order : Order
cancelled_order = record placed_order { status = OrderStatus.cancelled }

cancelled :
    cancel_placed_order 1 60 (start db)
    ≡ (ok cancelled_order, (cancel_placed_order 1 60 (start db)).1)
unfolding cancel_placed_order ◌>>=◌
cancelled = refl

update_shipping_status-cancelled_example :
    update_shipping_status 500 ShippingStatus.shipped 60 (cancel_placed_order 1 60 (start db)).1 ≡ (
      err (coded ErrorClass.bad_request "order_cancelled"),
      (cancel_placed_order 1 60 (start db)).1,
    )
update_shipping_status-cancelled_example =
    update_shipping_status-cancelled 500 ShippingStatus.shipped 1 60 (start db)
      (cancel_placed_order 1 60 (start db)).1 cancelled_order cancelled

add_to_cart-IsPriced_example : Holds IsPriced (add_to_cart 91 70 1 1 (start db)).1
add_to_cart-IsPriced_example = add_to_cart-IsPriced 91 70 1 1 (start db) ((refl, tt), (refl, tt))

with_tax-nearest_example :
    (10000 * with_tax 33333 ≤ 110 * 33333 + 5000) × (110 * 33333 ≤ 10000 * with_tax 33333 + 5000)
with_tax-nearest_example = with_tax-nearest 33333

stored : set_preferences 50 6 (14 ∷ []) fan (start db) ≡ (
  ok (record { concert_id = 6; user_id = 1; ticket_type_id = 14; rank = 1 } ∷ []),
  (set_preferences 50 6 (14 ∷ []) fan (start db)).1,
)
unfolding set_preferences check_ranked check_ranking_change_allowed check_campaigns current_tier_ids
    campaigns_for_tiers campaign_by_tier has_entered insert_ranking insert_preference
    require_ticket_type_matches_concert ◌>>=◌
stored = refl

set_preferences-ranking_example :
    (record { concert_id = 6; user_id = 1; ticket_type_id = 14; rank = 1 } ∷ []
      ≡ ranking 6 1 1 (14 ∷ []))
    × ((set_preferences 50 6 (14 ∷ []) fan (start db)).1.committed
        ≡ with_rows
            (delete_ranking 6 1 db)
            (record { concert_id = 6; user_id = 1; ticket_type_id = 14; rank = 1 } ∷ []))
set_preferences-ranking_example =
    set_preferences-ranking 50 6 (14 ∷ []) fan db (set_preferences 50 6 (14 ∷ []) fan (start db)).1
      (record { concert_id = 6; user_id = 1; ticket_type_id = 14; rank = 1 } ∷ []) stored

abbrev inbox_db : Database
inbox_db = record db {
  notifications =
      notice 1 NotificationType.lottery_registered ∷ notice 2 NotificationType.event_reminder ∷ [];
}

mark_all_as_read-count_unread_example :
    ((mark_all_as_read 500 fan (start inbox_db)).0 ≡ (count_unread fan (start inbox_db)).0)
    × ((count_unread other_fan (mark_all_as_read 500 fan (start inbox_db)).1).0
        ≡ (count_unread other_fan (start inbox_db)).0)
mark_all_as_read-count_unread_example =
    mark_all_as_read-count_unread 500 fan other_fan (start inbox_db)

abbrev admin_user : User
admin_user = record manager { role = UserRole.admin }

order_shipped :
    ship_order 100 60 admin_user (start db)
    ≡ (ok placed_order, (ship_order 100 60 admin_user (start db)).1)
unfolding ship_order manager_order_scope_violation ◌>>=◌
order_shipped = refl

ship_order-cancel_placed_order_example :
    cancel_placed_order 1 60 (ship_order 100 60 admin_user (start db)).1
    ≡ (cancel_answer (find_order_of 1 60 db), (ship_order 100 60 admin_user (start db)).1)
ship_order-cancel_placed_order_example =
    ship_order-cancel_placed_order 100 60 1 admin_user (start db)
      (ship_order 100 60 admin_user (start db)).1 placed_order order_shipped
