-- ===== src/Order/Tests.antt =====
-- Two users with an address each.
use i_dolly_backend.Database.{Database}
use i_dolly_backend.Fixtures.{db}
use i_dolly_backend.Order.Addresses.{AddressData, address_row, fetch_address, update_address}
use i_dolly_backend.Order.Private.{Change, Change-fetch_address}
use i_dolly_backend.Prelude.{◌≡◌, [], ◌∷◌, arith, none}
use i_dolly_backend.Session.{start}

abbrev address_data : AddressData
address_data = record {
  address_line1 = 961;
  address_line2 = none;
  city = 962;
  postal_code = 963;
  state = 964;
  country = 965;
}

abbrev two_addresses : Database
two_addresses = record db {
  shipping_addresses = address_row 95 1 address_data ∷ address_row 96 2 address_data ∷ [];
}

Change-fetch_address_example :
    (fetch_address 2 (update_address 1 address_data 95 (start two_addresses)).1).0
    ≡ (fetch_address 2 (start two_addresses)).0
Change-fetch_address_example =
    Change-fetch_address 1 2 (start two_addresses)
      (update_address 1 address_data 95 (start two_addresses)).1 (omega arith) (λ k. ground arith)
      (Change.change 95 1 address_data (start two_addresses))
