-- ===== src/Trigger.antt =====
-- The database triggers of alembic/versions, as they stand after the last migration. Each gives
-- the exception that `translate_trigger_error` makes of what it raises, or `none`.
use i_dolly_backend.Database.{Database}
use i_dolly_backend.Error.{Error, ErrorClass, plain}
use i_dolly_backend.Prelude.{
  ℕ, ◌+◌, Bool, true, false, ◌&&◌, Option, none, some, if◌then◌else◌, ◌==◌, ltb, leb, not, any,
  count, find, filter, sum_by,
}
use i_dolly_backend.Schema.{is_fan, is_live}
use i_dolly_backend.Tables.{Uuid, TicketType, LotteryEntry, Ticket, LotteryPreference, OrderItem}
use i_dolly_backend.Tax.{resale_cap_quantity}

-- `JOIN ticket_types tt ON tt.id = ticket_type_id WHERE tt.concert_id = concert_id`
abbrev pub in_concert : Database → Uuid → Uuid → Bool
in_concert db concert_id ticket_type_id =
    any (λ tt. tt.id == ticket_type_id && tt.concert_id == concert_id) db.ticket_types

-- A live ticket of the user for the concert.
abbrev pub is_live_ticket_of : Database → Uuid → Uuid → Ticket → Bool
is_live_ticket_of db user_id concert_id t =
    t.user_id == user_id && in_concert db concert_id t.ticket_type_id && is_live t.status

-- fn_enforce_fan_only_purchase; a missing user has no role, which is distinct from `fan` too.
unfoldable pub enforce_fan_only_purchase : Database → Uuid → Option Error
enforce_fan_only_purchase db user_id = elim (find (λ u. u.id == user_id) db.users) [
  | none ↦ some (plain ErrorClass.fan_only_purchase)
  | some u ↦ if is_fan u.role then none else some (plain ErrorClass.fan_only_purchase)
]

-- fn_enforce_one_ticket_per_concert. With no ticket type the concert is NULL, and nothing counts.
unfoldable pub enforce_one_ticket_per_concert : Database → Ticket → Option Error
enforce_one_ticket_per_concert db new =
    elim (find (λ tt. tt.id == new.ticket_type_id) db.ticket_types) [
      | none ↦ none
      | some tt ↦
          if ltb 0 (count (is_live_ticket_of db new.user_id tt.concert_id) db.tickets)
          then some (plain ErrorClass.duplicate_concert_ticket)
          else none
    ]

-- fn_enforce_lottery_entry_cap; against a NULL limit the comparison is not true.
unfoldable pub enforce_lottery_entry_cap : Database → LotteryEntry → Option Error
enforce_lottery_entry_cap db new = elim (find (λ c. c.id == new.campaign_id) db.lottery_campaigns) [
  | none ↦ none
  | some c ↦
      if leb c.max_entries_per_user (
        count (λ e. e.campaign_id == new.campaign_id && e.user_id == new.user_id)
          db.lottery_entries)
      then some (plain ErrorClass.lottery_entry_cap_exceeded)
      else none
]

-- fn_require_lottery_preference: the user has ranked the campaign's tier for its concert.
unfoldable pub require_lottery_preference : Database → LotteryEntry → Option Error
require_lottery_preference db new =
    elim (find (λ c. c.id == new.campaign_id) db.lottery_campaigns) [
      | none ↦ some (plain ErrorClass.lottery_preference_required)
      | some c ↦
          if any
            (λ p.
              p.user_id == new.user_id
              && p.ticket_type_id == c.ticket_type_id
              && in_concert db p.concert_id c.ticket_type_id)
            db.lottery_preferences
          then none
          else some (plain ErrorClass.lottery_preference_required)
    ]

-- fn_require_ticket_type_matches_concert
unfoldable pub require_ticket_type_matches_concert : Database → LotteryPreference → Option Error
require_ticket_type_matches_concert db new =
    elim (find (λ tt. tt.id == new.ticket_type_id) db.ticket_types) [
      | none ↦ some (plain ErrorClass.lottery_preference_ticket_type_mismatch)
      | some tt ↦
          if tt.concert_id == new.concert_id
          then none
          else some (plain ErrorClass.lottery_preference_ticket_type_mismatch)
    ]

-- fn_enforce_concert_ticket_capacity, on the ticket type as it would stand; against a NULL
-- capacity the comparison is not true.
unfoldable pub enforce_concert_ticket_capacity : Database → TicketType → Option Error
enforce_concert_ticket_capacity db new = elim (find (λ c. c.id == new.concert_id) db.concerts) [
  | none ↦ none
  | some c ↦
      if ltb c.capacity (
        sum_by (λ x. x.total_quantity)
          (filter (λ x. x.concert_id == new.concert_id && not (x.id == new.id)) db.ticket_types)
        + new.total_quantity)
      then some (plain ErrorClass.concert_ticket_capacity_exceeded)
      else none
]

-- The units of a product over all orders of a user.
abbrev pub is_order_of : Database → Uuid → Uuid → Bool
is_order_of db user_id order_id = any (λ o. o.id == order_id && o.user_id == user_id) db.orders

abbrev pub bought : Database → Uuid → Uuid → ℕ
bought db user_id product_id =
    sum_by (λ x. x.quantity)
      (filter (λ x. x.product_id == product_id && is_order_of db user_id x.order_id) db.order_items)

-- `products p LEFT JOIN categories c`, with COALESCE(c.is_resale_capped, false); no product at
-- all leaves the flag NULL, and `NOT NULL` is not true, so the check goes on.
abbrev pub is_capped_product : Database → Uuid → Bool
is_capped_product db product_id = elim (find (λ p. p.id == product_id) db.products) [
  | none ↦ true
  | some p ↦ elim (find (λ c. c.id == p.category_id) db.categories) [
    | none ↦ false
    | some c ↦ c.is_resale_capped
  ]
]

-- fn_enforce_resale_cap
unfoldable pub enforce_resale_cap : Database → OrderItem → Option Error
enforce_resale_cap db new =
    if is_capped_product db new.product_id
    then elim (find (λ o. o.id == new.order_id) db.orders) [
      | none ↦ none
      | some o ↦
          if ltb resale_cap_quantity (bought db o.user_id new.product_id + new.quantity)
          then some (plain ErrorClass.resale_cap_exceeded)
          else none
    ]
    else none

-- The three triggers of `lottery_entries`, in the order of their names.
unfoldable pub lottery_entry_triggers : Database → LotteryEntry → Option Error
lottery_entry_triggers db new = elim (enforce_lottery_entry_cap db new) [
  | some e ↦ some e
  | none ↦ elim (enforce_fan_only_purchase db new.user_id) [
    | some e ↦ some e
    | none ↦ require_lottery_preference db new
  ]
]

-- The two triggers of `tickets`, in the order of their names.
unfoldable pub ticket_triggers : Database → Ticket → Option Error
ticket_triggers db new = elim (enforce_fan_only_purchase db new.user_id) [
  | none ↦ enforce_one_ticket_per_concert db new
  | some e ↦ some e
]
