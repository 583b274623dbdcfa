-- ===== src/Catalogue/Removal.antt =====
-- app/services/marketplace/product_service.py: delete_product, and the two listings of all rows.
use i_dolly_backend.Catalogue.{find_category, find_product}
use i_dolly_backend.Catalogue.Products.{managed_product}
use i_dolly_backend.Database.{Database}
use i_dolly_backend.Error.{ErrorClass, plain}
use i_dolly_backend.Prelude.{Bool, ◌&&◌, ◌||◌, Option, none, some, List, ◌==◌, any, delete}
use i_dolly_backend.Session.{Service, pure, query, raise_if, modify, commit, ◌>>=◌, ◌>>◌}
use i_dolly_backend.Tables.{Category, Product, User, Uuid}

-- A row of carts or order_items names the product.
abbrev pub is_held : Uuid → Database → Bool
is_held k db = any (λ c. c.product_id == k) db.carts || any (λ i. i.product_id == k) db.order_items

-- DELETE FROM products, with the rows of album_details, album_genres and merch_details.
abbrev pub drop_product : Uuid → Database → Database
drop_product k db = record db {
  products = delete (λ p. p.id == k) db.products;
  album_details = delete (λ x. x.product_id == k) db.album_details;
  album_genres =
      delete (λ g. g.product_id == k && any (λ x. x.product_id == k) db.album_details)
        db.album_genres;
  merch_details = delete (λ x. x.product_id == k) db.merch_details;
}

-- ProductService.delete_product. The relationships `cart_items` and `order_items` have no
-- passive_deletes, so the flush clears `product_id` of those rows, which must not be null.
unfoldable pub delete_product : Uuid → User → Service Product
delete_product product_id' current_user = do
  db_product ← managed_product product_id' current_user
  raise_if (plain ErrorClass.dbapi_error) (← query (is_held db_product.id))
  modify (drop_product db_product.id)
  commit
  pure db_product

-- ProductService.list_of_products
unfoldable pub list_of_products : Service (List Product)
list_of_products = query (λ db. db.products)

-- What search_product reads of a product: the row and its category.
abbrev pub with_category : Option Product → Database → Option (Product × Option Category)
with_category none db = none
with_category (some p) db = some (p, find_category p.category_id db)

-- ProductService.search_product
unfoldable pub search_product : Uuid → Service (Option (Product × Option Category))
search_product product_id' = query (λ db. with_category (find_product product_id' db) db)
