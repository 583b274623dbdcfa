-- ===== src/Order/Addresses.antt =====
-- app/services/marketplace/shipping_service.py.
use i_dolly_backend.Error.{ErrorClass, plain}
use i_dolly_backend.Prelude.{
  Bool, true, ◌&&◌, Option, none, some, List, [], ◌∷◌, ◌++◌, ◌==◌, any, delete, filter, find,
  update,
}
use i_dolly_backend.Session.{Service, pure, query, found, raise_if, modify, commit, ◌>>=◌, ◌>>◌}
use i_dolly_backend.Tables.{ShippingAddress, Text, Uuid}

-- The address of a request (ShippingBase).
pub record AddressData : Type 0 where
  pub address_line1 : Text
  pub address_line2 : Option Text
  pub city : Text
  pub postal_code : Text
  pub state : Text
  pub country : Text

abbrev pub is_address_of : Uuid → Uuid → ShippingAddress → Bool
is_address_of user_id' address_id a = a.id == address_id && a.user_id == user_id'

-- The row of an address.
abbrev pub address_row : Uuid → Uuid → AddressData → ShippingAddress
address_row new_id user_id' data' = record {
  id = new_id;
  user_id = user_id';
  address_line1 = data'.address_line1;
  address_line2 = data'.address_line2;
  city = data'.city;
  postal_code = data'.postal_code;
  state = data'.state;
  country = data'.country;
}

-- ShippingService.create_shipping_address
unfoldable pub create_shipping_address : Uuid → Uuid → AddressData → Service ShippingAddress
create_shipping_address new_id user_id' data' = do
  let address = address_row new_id user_id' data'
  modify (λ db. record db { shipping_addresses = db.shipping_addresses ++ address ∷ [] })
  commit
  pure address

-- ShippingService.fetch_address
unfoldable pub fetch_address : Uuid → Service (List ShippingAddress)
fetch_address user_id' = query (λ db. filter (λ a. a.user_id == user_id') db.shipping_addresses)

-- ShippingService.get_address_by_id
unfoldable pub get_address_by_id : Uuid → Uuid → Service (Option ShippingAddress)
get_address_by_id user_id' address_id =
    query (λ db. find (is_address_of user_id' address_id) db.shipping_addresses)

-- ShippingService.update_address
unfoldable pub update_address : Uuid → AddressData → Uuid → Service ShippingAddress
update_address user_id' data' address_id = do
  address ←
      found (plain ErrorClass.not_found)
        (← query (λ db. find (is_address_of user_id' address_id) db.shipping_addresses))
  let address' = address_row address.id address.user_id data'
  modify (λ db. record db {
    shipping_addresses = update (λ a. a.id == address.id) (λ a. address') db.shipping_addresses;
  })
  commit
  pure address'

-- ShippingService.delete_address, after the lookup. The relationship `orders` has no
-- passive_deletes, so the flush clears `shipping_address_id` of the orders, which must not be null.
unfoldable pub delete_found_address : Option ShippingAddress → Service (Option Bool)
delete_found_address none = pure none
delete_found_address (some address) = do
  raise_if (plain ErrorClass.dbapi_error)
      (← query (λ db. any (λ o. o.shipping_address_id == address.id) db.orders))
  modify (λ db. record db {
    shipping_addresses = delete (λ a. a.id == address.id) db.shipping_addresses;
  })
  commit
  pure (some true)

unfoldable pub delete_address : Uuid → Uuid → Service (Option Bool)
delete_address user_id' address_id = do
  address ← query (λ db. find (is_address_of user_id' address_id) db.shipping_addresses)
  delete_found_address address
