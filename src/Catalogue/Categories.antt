-- ===== src/Catalogue/Categories.antt =====
-- app/services/marketplace/category_service.py.
use i_dolly_backend.Catalogue.{find_category}
use i_dolly_backend.Error.{ErrorClass, plain}
use i_dolly_backend.Prelude.{
  Bool, true, false, not, ◌&&◌, Option, none, some, List, [], ◌∷◌, ◌++◌, if◌then◌else◌, ◌==◌, any,
  delete, update,
}
use i_dolly_backend.Session.{
  Service, pure, query, found, raise_if, modify, write, commit, ◌>>=◌, ◌>>◌,
}
use i_dolly_backend.Tables.{Category, Text, Uuid}

-- CategoryService.add_categories, under the unique constraint on the name; the flag takes the
-- server's default.
unfoldable pub add_categories : Uuid → Text → Service Category
add_categories new_id name' = do
  let category : Category = record { id = new_id; name = name'; is_resale_capped = true }
  write
      (λ db.
        if any (λ c. c.name == name') db.categories
        then some (plain ErrorClass.dbapi_error)
        else none)
      (λ db. record db { categories = db.categories ++ category ∷ [] })
  commit
  pure category

-- CategoryService.get_categories
unfoldable pub get_categories : Service (List Category)
get_categories = query (λ db. db.categories)

abbrev pub capped_as : Option Bool → Bool → Bool
capped_as none old = old
capped_as (some new) old = new

-- CategoryService.update_category, under the same constraint.
unfoldable pub update_category : Uuid → Text → Option Bool → Service Category
update_category category_id' name' is_capped = do
  category ← found (plain ErrorClass.not_found) (← query (find_category category_id'))
  let category' : Category = record category {
    name = name';
    is_resale_capped = capped_as is_capped category.is_resale_capped;
  }
  write
      (λ db.
        if any (λ c. c.name == name' && not (c.id == category.id)) db.categories
        then some (plain ErrorClass.dbapi_error)
        else none)
      (λ db. record db {
        categories = update (λ c. c.id == category.id) (λ c. category') db.categories;
      })
  commit
  pure category'

-- CategoryService.delete_category, after the lookup. The relationship `products` has no
-- passive_deletes, so the flush clears `category_id` of the products, which must not be null.
unfoldable pub delete_found_category : Option Category → Service Bool
delete_found_category none = pure false
delete_found_category (some category) = do
  raise_if (plain ErrorClass.dbapi_error)
      (← query (λ db. any (λ p. p.category_id == category.id) db.products))
  modify (λ db. record db { categories = delete (λ c. c.id == category.id) db.categories })
  commit
  pure true

unfoldable pub delete_category : Uuid → Service Bool
delete_category category_id' = do
  category ← query (find_category category_id')
  delete_found_category category
