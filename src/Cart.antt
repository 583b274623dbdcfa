-- ===== src/Cart.antt =====
-- app/services/marketplace/cart_service.py.
pub mod Invariant
use i_dolly_backend.Database.{Database}
use i_dolly_backend.Error.{ErrorClass, plain, coded}
use i_dolly_backend.Prelude.{
  ℕ, ◌+◌, ◌*◌, Bool, true, false, ◌&&◌, not, Option, none, some, List, [], ◌∷◌, ◌++◌, if◌then◌else◌,
  ◌==◌, ltb, any, find, filter, update, delete, sum_by,
}
use i_dolly_backend.Rows.{find_user}
use i_dolly_backend.Schema.{is_fan}
use i_dolly_backend.Session.{
  Service, pure, raise, query, found, raise_if, modify, write, commit, ◌>>=◌, ◌>>◌,
}
use i_dolly_backend.Tables.{Uuid, Price, User, Product, Cart}
use i_dolly_backend.Trigger.{enforce_fan_only_purchase}

abbrev pub is_cart_line : Uuid → Uuid → Cart → Bool
is_cart_line user_id product_id c = c.user_id == user_id && c.product_id == product_id

-- The row after more of its product is added: the whole row at the current price.
abbrev pub repriced : Product → ℕ → Cart → Cart
repriced p quantity' c = record c {
  quantity = c.quantity + quantity';
  price = p.price;
  total_price = p.price * (c.quantity + quantity');
}

abbrev pub new_line : Uuid → Uuid → Product → ℕ → Cart
new_line cart_id user_id p quantity' = record {
  id = cart_id;
  user_id = user_id;
  product_id = p.id;
  quantity = quantity';
  price = p.price;
  total_price = p.price * quantity';
}

-- The branch on the existing row; an INSERT has its trigger, an UPDATE has none.
unfoldable pub put_line : Uuid → Uuid → Product → ℕ → Option Cart → Service Cart
put_line cart_id user_id p quantity' none = do
  write (λ db. enforce_fan_only_purchase db user_id)
      (λ db. record db { carts = db.carts ++ new_line cart_id user_id p quantity' ∷ [] })
  pure (new_line cart_id user_id p quantity')
put_line cart_id user_id p quantity' (some line) = do
  modify (λ db. record db {
    carts = update (λ c. c.id == line.id) (λ _. repriced p quantity' line) db.carts;
  })
  pure (repriced p quantity' line)

-- CartService.add_to_cart
unfoldable pub add_to_cart : Uuid → Uuid → ℕ → Uuid → Service Cart
add_to_cart cart_id product_id quantity' user_id = do
  user ← found (plain ErrorClass.not_found) (← query (find_user user_id))
  raise_if (plain ErrorClass.fan_only_purchase) (not (is_fan user.role))
  product ←
      found (plain ErrorClass.not_found)
        (← query (λ db. find (λ p. p.id == product_id) db.products))
  raise_if (coded ErrorClass.bad_request "insufficient_stock") (ltb product.quantity quantity')
  line ← query (λ db. find (is_cart_line user_id product_id) db.carts)
  cart ← put_line cart_id user_id product quantity' line
  commit
  pure cart

-- CartService.see_cart: the items and their total.
unfoldable pub see_cart : Uuid → Service (List Cart × Price)
see_cart user_id = do
  items ← query (λ db. filter (λ c. c.user_id == user_id) db.carts)
  pure (items, sum_by (λ c. c.total_price) items)

-- CartService.remove_cart; `some true` is True.
unfoldable pub remove_found : Option Cart → Service (Option Bool)
remove_found none = pure none
remove_found (some cart) = do
  modify (λ db. record db { carts = delete (λ c. c.id == cart.id) db.carts })
  commit
  pure (some true)

unfoldable pub remove_cart : Uuid → Uuid → Service (Option Bool)
remove_cart user_id cart_id = do
  cart ← query (λ db. find (λ c. c.id == cart_id && c.user_id == user_id) db.carts)
  remove_found cart
