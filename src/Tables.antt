-- ===== src/Tables.antt =====
-- The rows of app/db/models (identity, events, marketplace, shared). An id is a UUID, which the
-- program only compares, so a number serves. A time is a number of seconds, a price a number of
-- hundredths of a yen. Columns that the services only store and show are left out.
use i_dolly_backend.Prelude.{ℕ, Bool, Option}
use i_dolly_backend.Schema.{
  InquiryTopic, UserRole, TicketTier, SaleMethod, TicketStatus, CampaignStatus,
  DirectSaleCampaignStatus, LotteryEntryStatus, ConcertStatus, PaymentStatus, PaymentGateway,
  ReleaseFormat, OrderStatus, ShippingStatus, NotificationType,
}

abbrev pub Uuid : Type 0
Uuid = ℕ

abbrev pub Time : Type 0
Time = ℕ

abbrev pub Price : Type 0
Price = ℕ

-- A string that the program only stores and compares: a name, an email, a token, a hash.
abbrev pub Text : Type 0
Text = ℕ

pub record User : Type 0 where
  pub id : Uuid
  pub name : Text
  pub email : Text
  pub is_admin : Bool
  pub hashed_password : Text
  pub is_verified : Bool
  pub role : UserRole
  pub company_id : Option Uuid

pub record Concert : Type 0 where
  pub id : Uuid
  pub company_id : Uuid
  pub venue_id : Uuid
  pub capacity : ℕ
  pub event_datetime : Time
  pub doors_open_at : Option Time
  pub status : ConcertStatus

pub record TicketType : Type 0 where
  pub id : Uuid
  pub concert_id : Uuid
  pub tier : TicketTier
  pub price : Price
  pub total_quantity : ℕ
  pub sold_quantity : ℕ
  pub sale_method : SaleMethod

pub record LotteryCampaign : Type 0 where
  pub id : Uuid
  pub ticket_type_id : Uuid
  pub entry_start_at : Time
  pub entry_end_at : Time
  pub draw_at : Option Time
  pub payment_deadline_hours : ℕ
  pub status : CampaignStatus
  pub max_entries_per_user : ℕ

pub record DirectSaleCampaign : Type 0 where
  pub id : Uuid
  pub ticket_type_id : Uuid
  pub sale_start_at : Time
  pub sale_end_at : Time
  pub status : DirectSaleCampaignStatus

pub record LotteryEntry : Type 0 where
  pub id : Uuid
  pub campaign_id : Uuid
  pub user_id : Uuid
  pub status : LotteryEntryStatus
  pub drawn_at : Option Time

pub record LotteryPreference : Type 0 where
  pub concert_id : Uuid
  pub user_id : Uuid
  pub ticket_type_id : Uuid
  pub rank : ℕ

pub record Ticket : Type 0 where
  pub id : Uuid
  pub ticket_type_id : Uuid
  pub user_id : Uuid
  pub lottery_entry_id : Option Uuid
  pub payment_id : Option Uuid
  pub status : TicketStatus
  pub issued_code : Option Uuid
  pub payment_deadline_at : Option Time

pub record Payment : Type 0 where
  pub id : Uuid
  pub order_id : Option Uuid
  pub ticket_id : Option Uuid
  pub user_id : Uuid
  pub amount : ℕ
  pub status : PaymentStatus
  pub payment_gateway : PaymentGateway
  pub is_paid : Bool
  pub pg_order_id : Option Uuid
  pub pg_payment_id : Option Uuid
  pub idempotency_key : Uuid

pub record Product : Type 0 where
  pub id : Uuid
  pub name : Text
  pub description : Text
  pub image_url : Option Text
  pub price : Price
  pub quantity : ℕ
  pub category_id : Uuid

pub record Category : Type 0 where
  pub id : Uuid
  pub name : Text
  pub is_resale_capped : Bool

pub record Cart : Type 0 where
  pub id : Uuid
  pub user_id : Uuid
  pub product_id : Uuid
  pub quantity : ℕ
  pub price : Price
  pub total_price : Price

pub record Order : Type 0 where
  pub id : Uuid
  pub user_id : Uuid
  pub shipping_address_id : Uuid
  pub total_price : ℕ
  pub status : OrderStatus

pub record OrderItem : Type 0 where
  pub order_id : Uuid
  pub product_id : Uuid
  pub quantity : ℕ
  pub price : ℕ

pub record ShippingAddress : Type 0 where
  pub id : Uuid
  pub user_id : Uuid
  pub address_line1 : Text
  pub address_line2 : Option Text
  pub city : Text
  pub postal_code : Text
  pub state : Text
  pub country : Text

-- The row of `shipping_status`, one for each order.
pub record Shipping : Type 0 where
  pub order_id : Uuid
  pub status : ShippingStatus
  pub updated_at : Time

pub record Notification : Type 0 where
  pub user_id : Uuid
  pub type : NotificationType
  pub order_id : Option Uuid
  pub ticket_id : Option Uuid
  pub lottery_entry_id : Option Uuid
  pub concert_id : Option Uuid
  pub is_read : Bool
  pub read_at : Option Time

-- The row of `refresh_tokens`.
pub record RefreshToken : Type 0 where
  pub user_id : Uuid
  pub token : Text
  pub expires_at : Time
  pub revoked : Bool

pub record Group : Type 0 where
  pub id : Uuid
  pub company_id : Uuid
  pub name : Text
  pub debut_date : Option Time
  pub description : Option Text
  pub is_active : Bool

pub record Idol : Type 0 where
  pub id : Uuid
  pub company_id : Uuid
  pub group_id : Option Uuid
  pub name : Text
  pub date_of_birth : Option Time
  pub hometown : Option Text
  pub color_id : Option Uuid
  pub short_intro : Option Text
  pub long_description : Option Text
  pub profile_image_url : Option Text
  pub is_active : Bool

pub record Position : Type 0 where
  pub id : Uuid
  pub name : Text

pub record IdolPosition : Type 0 where
  pub idol_id : Uuid
  pub position_id : Uuid
  pub is_primary : Bool

pub record AlbumDetail : Type 0 where
  pub product_id : Uuid
  pub idol_id : Option Uuid
  pub group_id : Option Uuid
  pub release_date : Option Time
  pub track_count : Option ℕ
  pub format : ReleaseFormat

pub record MerchDetail : Type 0 where
  pub product_id : Uuid
  pub idol_id : Option Uuid
  pub group_id : Option Uuid
  pub edition : Option Text
  pub color_id : Option Uuid

pub record Genre : Type 0 where
  pub id : Uuid
  pub name : Text

pub record AlbumGenre : Type 0 where
  pub product_id : Uuid
  pub genre_id : Uuid

pub record ConcertPerformer : Type 0 where
  pub id : Uuid
  pub concert_id : Uuid
  pub idol_id : Option Uuid
  pub group_id : Option Uuid

pub record Inquiry : Type 0 where
  pub id : Uuid
  pub email : Text
  pub topic : InquiryTopic
  pub content : Text
  pub user_id : Option Uuid
  pub created_at : Time
