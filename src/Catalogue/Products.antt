-- ===== src/Catalogue/Products.antt =====
-- app/services/marketplace/product_service.py: the rows of products, and the company of each.
use i_dolly_backend.Catalogue.{
  artist_active_or_missing, find_album, find_category, find_group, find_idol, find_merch,
  find_product, insert_album, insert_merch, resolve_company_id,
}
use i_dolly_backend.Catalogue.Details.{is_missing_color}
use i_dolly_backend.Database.{Database}
use i_dolly_backend.Error.{ErrorClass, plain}
use i_dolly_backend.Prelude.{
  ℕ, Bool, true, false, not, ◌&&◌, Option, none, some, List, [], ◌∷◌, ◌++◌, ◌==◌, any, is_some,
  update,
}
use i_dolly_backend.Rows.{same_company}
use i_dolly_backend.Schema.{ReleaseFormat, is_manager}
use i_dolly_backend.Session.{
  Service, pure, query, found, raise, raise_if, modify, commit, ◌>>=◌, ◌>>◌,
}
use i_dolly_backend.Tables.{AlbumDetail, MerchDetail, Price, Product, Text, Time, User, Uuid}

abbrev pub company_of_merch : Option MerchDetail → Database → Option Uuid
company_of_merch none db = none
company_of_merch (some merch) db = resolve_company_id db merch.idol_id merch.group_id

abbrev pub company_of_album : Option AlbumDetail → Option MerchDetail → Database → Option Uuid
company_of_album none merch db = company_of_merch merch db
company_of_album (some album) merch db = resolve_company_id db album.idol_id album.group_id

-- ProductService._resolve_product_company_id
unfoldable pub resolve_product_company_id : Uuid → Database → Option Uuid
resolve_product_company_id product_id' db =
    company_of_album (find_album product_id' db) (find_merch product_id' db) db

-- ProductService._manager_scope_violation, on the company that it resolves.
abbrev pub is_other_company : User → Option Uuid → Bool
is_other_company current_user none = false
is_other_company current_user (some company_id') =
    not (same_company current_user.company_id (some company_id'))

abbrev pub product_scope_violation : Uuid → User → Database → Bool
product_scope_violation product_id' current_user db =
    is_manager current_user.role
    && is_other_company current_user (resolve_product_company_id product_id' db)

-- ProductCreate. The schema lets only a positive price and a name of one to 200 letters in.
pub record ProductCreate : Type 0 where
  pub name : Text
  pub price : Price
  pub description : Text
  pub quantity : ℕ
  pub image_url : Option Text
  pub category_id : Uuid

abbrev pub new_product : Uuid → ProductCreate → Product
new_product k p = record {
  id = k;
  name = p.name;
  description = p.description;
  image_url = p.image_url;
  price = p.price;
  quantity = p.quantity;
  category_id = p.category_id;
}

abbrev pub add_product_row : Product → Database → Database
add_product_row p db = record db { products = db.products ++ p ∷ [] }

abbrev pub put_product : Product → Database → Database
put_product p db = record db { products = update (λ x. x.id == p.id) (λ _. p) db.products }

-- ProductService.add_product; the id of the new row is an argument.
unfoldable pub add_product : Uuid → ProductCreate → Service Product
add_product new_id product = do
  found (plain ErrorClass.not_found) (← query (find_category product.category_id))
  modify (add_product_row (new_product new_id product))
  commit
  pure (new_product new_id product)

-- `detail_kind` of ProductWithDetailCreate, with the fields of that kind. The `format` of an album
-- is none where the request's string is no ReleaseFormat.
pub data DetailKind : Type 0 where
  album : Option Time → Option ℕ → Option ReleaseFormat → DetailKind
  merch : Option Text → Option Uuid → DetailKind

-- ProductWithDetailCreate
pub record ProductWithDetailCreate : Type 0 where
  pub product : ProductCreate
  pub detail_kind : DetailKind
  pub idol_id : Option Uuid
  pub group_id : Option Uuid

abbrev pub is_missing_idol : Option Uuid → Database → Bool
is_missing_idol none db = false
is_missing_idol (some k) db = not (is_some (find_idol k db))

abbrev pub is_missing_group : Option Uuid → Database → Bool
is_missing_group none db = false
is_missing_group (some k) db = not (is_some (find_group k db))

-- `data.detail_kind == "merch" and data.color_id is not None and not db.get(...)`
abbrev pub is_missing_detail_color : DetailKind → Database → Bool
is_missing_detail_color (DetailKind.album _ _ _) db = false
is_missing_detail_color (DetailKind.merch _ color_id') db = is_missing_color color_id' db

-- The detail row of a new product.
unfoldable pub insert_detail : Uuid → Option Uuid → Option Uuid → DetailKind → Service (Unit {0})
insert_detail k idol group (DetailKind.album _ _ none) = raise (plain ErrorClass.dbapi_error)
insert_detail k idol group (DetailKind.album released tracks (some format')) =
    insert_album (record {
      product_id = k;
      idol_id = idol;
      group_id = group;
      release_date = released;
      track_count = tracks;
      format = format';
    })
insert_detail k idol group (DetailKind.merch edition' color) = insert_merch (record {
  product_id = k;
  idol_id = idol;
  group_id = group;
  edition = edition';
  color_id = color;
})

-- ProductService.add_product_with_detail
unfoldable pub add_product_with_detail :
    Uuid → ProductWithDetailCreate → Option Text → User → Service Product
add_product_with_detail new_id data' image current_user = do
  found (plain ErrorClass.not_found) (← query (find_category data'.product.category_id))
  raise_if (plain ErrorClass.not_found) (← query (is_missing_idol data'.idol_id))
  raise_if (plain ErrorClass.not_found) (← query (is_missing_group data'.group_id))
  raise_if (plain ErrorClass.not_found) (← query (is_missing_detail_color data'.detail_kind))
  raise_if (plain ErrorClass.bad_request)
      (not (← query (λ db. artist_active_or_missing db data'.idol_id data'.group_id)))
  owner_company_id ← query (λ db. resolve_company_id db data'.idol_id data'.group_id)
  raise_if (plain ErrorClass.forbidden)
      (is_manager current_user.role && not (same_company current_user.company_id owner_company_id))
  let db_product : Product = record (new_product new_id data'.product) { image_url = image }
  modify (add_product_row db_product)
  insert_detail new_id data'.idol_id data'.group_id data'.detail_kind
  commit
  pure db_product

abbrev pub or_kept : Option Text → Option Text → Option Text
or_kept none kept = kept
or_kept (some url) kept = some url

-- The row of a product that the user may manage: what update_product, set_product_image and
-- delete_product begin with.
unfoldable pub managed_product : Uuid → User → Service Product
managed_product product_id' current_user = do
  db_product ← found (plain ErrorClass.not_found) (← query (find_product product_id'))
  raise_if (plain ErrorClass.forbidden) (← query (product_scope_violation product_id' current_user))
  pure db_product

-- ProductService.update_product. A price is a number of hundredths, which `round(price, 2)` keeps.
unfoldable pub update_product : Uuid → ProductCreate → User → Service Product
update_product product_id' product current_user = do
  db_product ← managed_product product_id' current_user
  raise_if (plain ErrorClass.forbidden)
      (is_manager current_user.role && not (product.price == db_product.price))
  found (plain ErrorClass.not_found) (← query (find_category product.category_id))
  let updated : Product = record db_product {
    name = product.name;
    description = product.description;
    price = product.price;
    quantity = product.quantity;
    category_id = product.category_id;
    image_url = or_kept product.image_url db_product.image_url;
  }
  modify (put_product updated)
  commit
  pure updated

-- ProductService.set_product_image
unfoldable pub set_product_image : Uuid → Text → User → Service Product
set_product_image product_id' image current_user = do
  db_product ← managed_product product_id' current_user
  let updated : Product = record db_product { image_url = some image }
  modify (put_product updated)
  commit
  pure updated

-- `category_ids - existing_ids` is not empty.
abbrev pub has_missing_category : List ProductCreate → Database → Bool
has_missing_category products' db =
    any (λ p. not (is_some (find_category p.category_id db))) products'

abbrev pub new_products : List (Uuid × ProductCreate) → List Product
new_products [] = []
new_products ((k, p) ∷ rest) = new_product k p ∷ new_products rest

abbrev pub requests : List (Uuid × ProductCreate) → List ProductCreate
requests [] = []
requests ((k, p) ∷ rest) = p ∷ requests rest

abbrev pub is_empty_batch : List (Uuid × ProductCreate) → Bool
is_empty_batch [] = true
is_empty_batch (p ∷ rest) = false

-- ProductService.add_bulk_products; each request stands with the id of its row.
unfoldable pub add_bulk_products : List (Uuid × ProductCreate) → Service (List Product)
add_bulk_products batch = do
  raise_if (plain ErrorClass.bad_request) (is_empty_batch batch)
  raise_if (plain ErrorClass.not_found) (← query (has_missing_category (requests batch)))
  modify (λ db. record db { products = db.products ++ new_products batch })
  commit
  pure (new_products batch)
