-- ===== src/Schema.antt =====
-- The enumerations of app/schema, and the tests for one value of them that the services write
-- with `==` and `in_`.
use i_dolly_backend.Prelude.{Bool, true, false}

-- app/schema/identity
pub data UserRole : Type 0 where
  admin manager fan : UserRole

-- app/schema/events
pub data TicketTier : Type 0 where
  vip premium regular : TicketTier

pub data SaleMethod : Type 0 where
  lottery direct : SaleMethod

pub data ConcertStatus : Type 0 where
  scheduled on_sale sold_out completed cancelled : ConcertStatus

pub data TicketStatus : Type 0 where
  reserved pending_payment paid cancelled expired used : TicketStatus

pub data CampaignStatus : Type 0 where
  opened drawn completed cancelled : CampaignStatus

pub data DirectSaleCampaignStatus : Type 0 where
  opened cancelled : DirectSaleCampaignStatus

pub data LotteryEntryStatus : Type 0 where
  pending won lost expired : LotteryEntryStatus

-- app/schema/marketplace
pub data PaymentStatus : Type 0 where
  pending success failed cancelled : PaymentStatus

pub data PaymentGateway : Type 0 where
  mock paypal : PaymentGateway

pub data OrderStatus : Type 0 where
  pending confirmed cancelled : OrderStatus

pub data ShippingStatus : Type 0 where
  pending processing shipped delivered cancelled : ShippingStatus

pub data ReleaseFormat : Type 0 where
  physical digital : ReleaseFormat

-- app/schema/shared
pub data NotificationType : Type 0 where
  order_confirmation order_shipped ticket_confirmation lottery_registered : NotificationType
  lottery_draw_triggered lottery_draw_failed lottery_draw_completed : NotificationType
  lottery_result lottery_payment_reminder lottery_payment_confirmation : NotificationType
  event_reminder password_reset : NotificationType

pub data InquiryTopic : Type 0 where
  tickets lottery orders payment account other : InquiryTopic

abbrev pub is_fan : UserRole → Bool
is_fan UserRole.fan = true
is_fan _ = false

abbrev pub is_admin : UserRole → Bool
is_admin UserRole.admin = true
is_admin _ = false

abbrev pub is_manager : UserRole → Bool
is_manager UserRole.manager = true
is_manager _ = false

abbrev pub is_direct : SaleMethod → Bool
is_direct SaleMethod.direct = true
is_direct SaleMethod.lottery = false

abbrev pub is_pending_payment : TicketStatus → Bool
is_pending_payment TicketStatus.pending_payment = true
is_pending_payment _ = false

abbrev pub is_paid_ticket : TicketStatus → Bool
is_paid_ticket TicketStatus.paid = true
is_paid_ticket _ = false

-- `_LIVE_STATUSES`, and the list in `fn_enforce_one_ticket_per_concert`.
abbrev pub is_live : TicketStatus → Bool
is_live TicketStatus.cancelled = false
is_live TicketStatus.expired = false
is_live _ = true

abbrev pub is_open_campaign : CampaignStatus → Bool
is_open_campaign CampaignStatus.opened = true
is_open_campaign _ = false

abbrev pub is_cancelled_campaign : CampaignStatus → Bool
is_cancelled_campaign CampaignStatus.cancelled = true
is_cancelled_campaign _ = false

abbrev pub is_open_sale : DirectSaleCampaignStatus → Bool
is_open_sale DirectSaleCampaignStatus.opened = true
is_open_sale DirectSaleCampaignStatus.cancelled = false

abbrev pub is_pending_entry : LotteryEntryStatus → Bool
is_pending_entry LotteryEntryStatus.pending = true
is_pending_entry _ = false

-- `_UNRESOLVED_LOTTERY_STATUSES`
abbrev pub is_unresolved : LotteryEntryStatus → Bool
is_unresolved LotteryEntryStatus.pending = true
is_unresolved LotteryEntryStatus.won = true
is_unresolved _ = false

abbrev pub is_success : PaymentStatus → Bool
is_success PaymentStatus.success = true
is_success _ = false

abbrev pub is_pending_payment_row : PaymentStatus → Bool
is_pending_payment_row PaymentStatus.pending = true
is_pending_payment_row _ = false

abbrev pub is_pending_order : OrderStatus → Bool
is_pending_order OrderStatus.pending = true
is_pending_order _ = false

-- `status in (pending, processing)`: the shipping statuses before the parcel leaves.
abbrev pub is_unshipped : ShippingStatus → Bool
is_unshipped ShippingStatus.pending = true
is_unshipped ShippingStatus.processing = true
is_unshipped _ = false

abbrev pub is_cancelled_shipping : ShippingStatus → Bool
is_cancelled_shipping ShippingStatus.cancelled = true
is_cancelled_shipping _ = false
