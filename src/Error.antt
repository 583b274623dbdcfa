-- ===== src/Error.antt =====
-- The exceptions of app/exception: a class for each `class ...Error`, with its parent and its error
-- code. The message texts and the HTTP statuses are not modelled.
use i_dolly_backend.Prelude.{Bool, true, false, Option, none, some}
use Prim.Native.String.{String}

pub data ErrorClass : Type 0 where
  -- app/exception/common.py, below ServiceError
  not_found forbidden bad_request conflict : ErrorClass
  -- app/exception/db_triggers.py, below TriggerViolationError
  fan_only_purchase lottery_preference_ticket_type_mismatch resale_cap_exceeded : ErrorClass
  duplicate_concert_ticket product_detail_kind_conflict lottery_entry_cap_exceeded : ErrorClass
  lottery_preference_required concert_ticket_capacity_exceeded : ErrorClass
  duplicate_idempotency_key duplicate_ticket_type : ErrorClass
  -- app/exception/checkout.py, CartItemError and those below it
  cart_item insufficient_stock payment_amount_mismatch address_id unsupported_gateway : ErrorClass
  ticket_type_not_found wrong_sale_method insufficient_ticket_stock not_on_sale : ErrorClass
  lottery_entry_unresolved ticket_not_found ticket_not_payable : ErrorClass
  -- Raised by Python or by the database driver: `next(...)` on nothing, a method call or an
  -- attribute of `None`, SQLAlchemy's refusal to blank out a primary key, a constraint that
  -- `translate_trigger_error` does not know, and a failed call of PayPal
  -- or of Redis.
  stop_iteration attribute_error assertion_error dbapi_error gateway_error redis_error : ErrorClass

-- A raised exception: its class, and the `code=` given at the raise site, if one is.
pub record Error : Type 0 where
  pub class : ErrorClass
  pub override : Option String

abbrev pub plain : ErrorClass → Error
plain c = record { class = c; override = none }

abbrev pub coded : ErrorClass → String → Error
coded c k = record { class = c; override = some k }

pub data Parent : Type 0 where
  service_error trigger_violation_error cart_item_error uncoded : Parent

unfoldable pub parent : ErrorClass → Parent
parent ErrorClass.not_found = Parent.service_error
parent ErrorClass.forbidden = Parent.service_error
parent ErrorClass.bad_request = Parent.service_error
parent ErrorClass.conflict = Parent.service_error
parent ErrorClass.fan_only_purchase = Parent.trigger_violation_error
parent ErrorClass.lottery_preference_ticket_type_mismatch = Parent.trigger_violation_error
parent ErrorClass.resale_cap_exceeded = Parent.trigger_violation_error
parent ErrorClass.duplicate_concert_ticket = Parent.trigger_violation_error
parent ErrorClass.product_detail_kind_conflict = Parent.trigger_violation_error
parent ErrorClass.lottery_entry_cap_exceeded = Parent.trigger_violation_error
parent ErrorClass.lottery_preference_required = Parent.trigger_violation_error
parent ErrorClass.concert_ticket_capacity_exceeded = Parent.trigger_violation_error
parent ErrorClass.duplicate_idempotency_key = Parent.trigger_violation_error
parent ErrorClass.duplicate_ticket_type = Parent.trigger_violation_error
parent ErrorClass.stop_iteration = Parent.uncoded
parent ErrorClass.attribute_error = Parent.uncoded
parent ErrorClass.assertion_error = Parent.uncoded
parent ErrorClass.dbapi_error = Parent.uncoded
parent ErrorClass.gateway_error = Parent.uncoded
parent ErrorClass.redis_error = Parent.uncoded
parent _ = Parent.cart_item_error

-- The class attribute `code`. An exception that is no CodedError has none; the handler then
-- answers with the default of the HTTP status 500.
unfoldable pub class_code : ErrorClass → String
class_code ErrorClass.not_found = "not_found"
class_code ErrorClass.forbidden = "forbidden"
class_code ErrorClass.bad_request = "bad_request"
class_code ErrorClass.conflict = "conflict"
class_code ErrorClass.fan_only_purchase = "fan_only_purchase"
class_code ErrorClass.lottery_preference_ticket_type_mismatch = "ticket_type_concert_mismatch"
class_code ErrorClass.resale_cap_exceeded = "resale_cap_exceeded"
class_code ErrorClass.duplicate_concert_ticket = "duplicate_concert_ticket"
class_code ErrorClass.product_detail_kind_conflict = "product_detail_kind_conflict"
class_code ErrorClass.lottery_entry_cap_exceeded = "lottery_entry_cap_exceeded"
class_code ErrorClass.lottery_preference_required = "lottery_preference_required"
class_code ErrorClass.concert_ticket_capacity_exceeded = "concert_capacity_exceeded"
class_code ErrorClass.duplicate_idempotency_key = "duplicate_idempotency_key"
class_code ErrorClass.duplicate_ticket_type = "duplicate_ticket_type"
class_code ErrorClass.cart_item = "checkout_error"
class_code ErrorClass.insufficient_stock = "insufficient_stock"
class_code ErrorClass.payment_amount_mismatch = "amount_mismatch"
class_code ErrorClass.address_id = "address_not_found"
class_code ErrorClass.unsupported_gateway = "unsupported_gateway"
class_code ErrorClass.ticket_type_not_found = "ticket_type_not_found"
class_code ErrorClass.wrong_sale_method = "wrong_sale_method"
class_code ErrorClass.insufficient_ticket_stock = "sold_out"
class_code ErrorClass.not_on_sale = "not_on_sale"
class_code ErrorClass.lottery_entry_unresolved = "lottery_entry_unresolved"
class_code ErrorClass.ticket_not_found = "ticket_not_found"
class_code ErrorClass.ticket_not_payable = "ticket_not_payable"
class_code _ = "internal_error"

-- `CodedError.__init__`: a code given at the raise site hides the class attribute.
unfoldable pub code : Error → String
code e = elim e.override [ none ↦ class_code e.class | some k ↦ k ]

-- An error of the database that the program does not know: `translate_trigger_error` returns None.
abbrev pub is_raw_class : ErrorClass → Bool
is_raw_class ErrorClass.dbapi_error = true
is_raw_class _ = false

abbrev pub is_raw : Error → Bool
is_raw e = is_raw_class e.class
