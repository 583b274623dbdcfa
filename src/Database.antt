-- ===== src/Database.antt =====
-- The database that one deployment shares, as the tables that the services read and write.
use i_dolly_backend.Prelude.{List}
use i_dolly_backend.Tables.{
  Inquiry, User, Concert, TicketType, LotteryCampaign, DirectSaleCampaign, LotteryEntry,
  LotteryPreference, Ticket, Payment, Product, Category, Cart, Order, OrderItem, ShippingAddress,
  Shipping, Notification, Uuid, RefreshToken, Group, Idol, Position, IdolPosition, AlbumDetail,
  MerchDetail, Genre, AlbumGenre, ConcertPerformer,
}

pub record Database : Type 0 where
  pub users : List User
  pub concerts : List Concert
  -- The ids of the rows of management_companies and venues.
  pub management_companies : List Uuid
  pub venues : List Uuid
  pub ticket_types : List TicketType
  pub lottery_campaigns : List LotteryCampaign
  pub direct_sale_campaigns : List DirectSaleCampaign
  pub lottery_entries : List LotteryEntry
  pub lottery_preferences : List LotteryPreference
  pub tickets : List Ticket
  pub payments : List Payment
  pub products : List Product
  pub categories : List Category
  pub carts : List Cart
  pub orders : List Order
  pub order_items : List OrderItem
  pub shipping_addresses : List ShippingAddress
  pub shipping_statuses : List Shipping
  pub notifications : List Notification
  pub refresh_tokens : List RefreshToken
  pub groups : List Group
  pub idols : List Idol
  -- The ids of the rows of idol_colors.
  pub idol_colors : List Uuid
  pub positions : List Position
  pub idol_positions : List IdolPosition
  pub album_details : List AlbumDetail
  pub merch_details : List MerchDetail
  pub genres : List Genre
  pub album_genres : List AlbumGenre
  pub concert_performers : List ConcertPerformer
  pub inquiries : List Inquiry
