-- ===== src/Fixtures.antt =====
-- A small database, a request and a draw, on which the tests run the services.
use i_dolly_backend.Database.{Database}
use i_dolly_backend.Lottery.Rounds.{Draw, IsSample}
use i_dolly_backend.Payment.{CheckoutData, Request}
use i_dolly_backend.Prelude.{
  ℕ, zero, suc, ◌+◌, ◌≤◌, ◌≡◌, refl, Bool, true, false, List, [], ◌∷◌, arith, count, length, none,
  some, take,
}
use i_dolly_backend.Schema.{
  CampaignStatus, ConcertStatus, DirectSaleCampaignStatus, LotteryEntryStatus, OrderStatus,
  PaymentGateway, SaleMethod, ShippingStatus, TicketStatus, TicketTier, UserRole,
}
use i_dolly_backend.Tables.{
  Cart, Concert, DirectSaleCampaign, LotteryCampaign, LotteryEntry, Order, Ticket, TicketType, User,
  Uuid,
}

abbrev pub fan : User
fan = record {
  id = 1;
  name = 1;
  email = 601;
  is_admin = false;
  hashed_password = 701;
  is_verified = false;
  role = UserRole.fan;
  company_id = none;
}

abbrev pub other_fan : User
other_fan = record {
  id = 2;
  name = 2;
  email = 602;
  is_admin = false;
  hashed_password = 702;
  is_verified = false;
  role = UserRole.fan;
  company_id = none;
}

abbrev pub manager : User
manager = record {
  id = 3;
  name = 3;
  email = 603;
  is_admin = false;
  hashed_password = 703;
  is_verified = false;
  role = UserRole.manager;
  company_id = some 7;
}

abbrev concert_of : Uuid → Concert
concert_of k = record {
  id = k;
  company_id = 7;
  venue_id = 8;
  capacity = 10;
  event_datetime = 5000;
  doors_open_at = none;
  status = ConcertStatus.on_sale;
}

abbrev pub tier_of : Uuid → Uuid → ℕ → ℕ → SaleMethod → TicketType
tier_of k concert total sold method = record {
  id = k;
  concert_id = concert;
  tier = TicketTier.vip;
  price = 500000;
  total_quantity = total;
  sold_quantity = sold;
  sale_method = method;
}

abbrev pub campaign_of : Uuid → Uuid → LotteryCampaign
campaign_of k tier_id = record {
  id = k;
  ticket_type_id = tier_id;
  entry_start_at = 0;
  entry_end_at = 100;
  draw_at = none;
  payment_deadline_hours = 24;
  status = CampaignStatus.opened;
  max_entries_per_user = 1;
}

abbrev pub entry_of : Uuid → Uuid → Uuid → LotteryEntry
entry_of k campaign user = record {
  id = k;
  campaign_id = campaign;
  user_id = user;
  status = LotteryEntryStatus.pending;
  drawn_at = none;
}

abbrev pub won_ticket : Uuid → Uuid → Uuid → TicketStatus → Ticket
won_ticket k tier_id user status' = record {
  id = k;
  ticket_type_id = tier_id;
  user_id = user;
  lottery_entry_id = none;
  payment_id = none;
  status = status';
  issued_code = none;
  payment_deadline_at = some 50;
}

abbrev direct_campaign : DirectSaleCampaign
direct_campaign = record {
  id = 25;
  ticket_type_id = 12;
  sale_start_at = 0;
  sale_end_at = 1000;
  status = DirectSaleCampaignStatus.opened;
}

abbrev pub placed_order : Order
placed_order = record {
  id = 60;
  user_id = 1;
  shipping_address_id = 95;
  total_price = 2200;
  status = OrderStatus.confirmed;
}

abbrev cart_line : Cart
cart_line = record {
  id = 90;
  user_id = 1;
  product_id = 70;
  quantity = 2;
  price = 100000;
  total_price = 200000;
}

-- Concert 5 has a lottery that fan 2 has entered, and concert 6 a direct sale and a lottery.
abbrev pub db : Database
db = record {
  users = fan ∷ other_fan ∷ manager ∷ [];
  concerts = concert_of 5 ∷ concert_of 6 ∷ [];
  management_companies = 7 ∷ [];
  venues = 8 ∷ [];
  ticket_types =
      tier_of 10 5 2 1 SaleMethod.lottery
      ∷ tier_of 12 6 2 1 SaleMethod.direct
      ∷ tier_of 13 5 1 1 SaleMethod.lottery
      ∷ tier_of 14 6 1 0 SaleMethod.lottery
      ∷ [];
  lottery_campaigns = campaign_of 20 10 ∷ campaign_of 22 14 ∷ [];
  direct_sale_campaigns = direct_campaign ∷ [];
  lottery_entries = entry_of 31 20 2 ∷ [];
  lottery_preferences =
      record { concert_id = 5; user_id = 2; ticket_type_id = 10; rank = 1 }
      ∷ record { concert_id = 6; user_id = 1; ticket_type_id = 14; rank = 1 }
      ∷ [];
  tickets =
      won_ticket 40 13 1 TicketStatus.pending_payment ∷ won_ticket 41 10 2 TicketStatus.paid ∷ [];
  payments = [];
  products =
      record {
        id = 70;
        name = 1;
        description = 1;
        image_url = none;
        price = 100000;
        quantity = 5;
        category_id = 80;
      }
      ∷ [];
  categories = record { id = 80; name = 81; is_resale_capped = true } ∷ [];
  carts = cart_line ∷ [];
  orders = placed_order ∷ [];
  order_items = [];
  shipping_addresses =
      record {
        id = 95;
        user_id = 1;
        address_line1 = 951;
        address_line2 = none;
        city = 952;
        postal_code = 953;
        state = 954;
        country = 955;
      }
      ∷ [];
  shipping_statuses =
      record { order_id = 60; status = ShippingStatus.pending; updated_at = 0 } ∷ [];
  notifications = [];
  refresh_tokens = [];
  groups = [];
  idols = [];
  idol_colors = [];
  positions = [];
  idol_positions = [];
  album_details = [];
  merch_details = [];
  genres = [];
  album_genres = [];
  concert_performers = [];
  inquiries = [];
}

-- PayPal is out of reach.
abbrev pub request : Request
request = record {
  now = 100;
  new_ticket_id = 201;
  new_order_id = 202;
  new_payment_id = 203;
  mock_order_id = 204;
  mock_payment_id = 205;
  create_order = λ _. none;
  capture_order = λ _. none;
}

abbrev pub mock_data : ℕ → CheckoutData
mock_data amount' = record {
  amount = amount';
  gateway = PaymentGateway.mock;
  simulate_succ = some true;
  idempotency_key = 300;
}

abbrev pub paypal_data : ℕ → CheckoutData
paypal_data amount' = record {
  amount = amount';
  gateway = PaymentGateway.paypal;
  simulate_succ = none;
  idempotency_key = 300;
}

-- A draw that takes the first candidates.
abbrev pub draw : Draw
draw = record { now = 200; uuid4 = λ k. k + 1000; sample = λ _ _ xs k. take k xs }

length-take : (k : ℕ) (xs : List LotteryEntry) → k ≤ length xs → length (take k xs) ≡ k
length-take zero xs h = refl
length-take (suc k) [] h = absurd (omega (arith, h))
length-take (suc k) (x ∷ xs) h = omega (arith, length-take k xs (omega (arith, h)))

count-take :
    (p : LotteryEntry → Bool) (k : ℕ) (xs : List LotteryEntry) → count p (take k xs) ≤ count p xs
count-take p zero xs = omega arith
count-take p (suc k) [] = omega arith
count-take p (suc k) (x ∷ xs) = omega (arith, count-take p k xs)

pub draw-IsSample : IsSample draw
draw-IsSample = record {
  size = λ _ _ xs k h. length-take k xs h;
  fair = λ _ _ xs k p. count-take p k xs;
}
