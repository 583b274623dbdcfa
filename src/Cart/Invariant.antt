-- ===== src/Cart/Invariant.antt =====
-- The prices of a cart's rows.
use i_dolly_backend.Cart.{add_to_cart, new_line, put_line, repriced}
use i_dolly_backend.Database.{Database}
use i_dolly_backend.Prelude.{
  ℕ, ◌*◌, ◌≡◌, refl, All, All-append, All-update, ◌==◌, [], ◌∷◌, Option, none, some,
}
use i_dolly_backend.Session.{Session}
use i_dolly_backend.Session.Invariant.{
  Keeps, Holds, Keeps-write, Keeps-modify, Keeps-bind, Keeps-pure, keeps_rules,
}
use i_dolly_backend.Tables.{Cart, Product, Uuid}

-- A row's total is its price times its quantity.
abbrev pub IsPriced : Database → Type 0
IsPriced db = All (λ c. c.total_price ≡ c.price * c.quantity) db.carts

put_line-IsPriced :
    (cart_id user_id : Uuid) (p : Product) (q : ℕ) (line : Option Cart)
    → Keeps IsPriced (put_line cart_id user_id p q line)
unfolding put_line
put_line-IsPriced cart_id user_id p q none =
    Keeps-bind IsPriced _ _
      (Keeps-write IsPriced _ _
        (λ db _ h. All-append _ db.carts (new_line cart_id user_id p q ∷ []) h (refl, tt)))
      (λ _. Keeps-pure IsPriced _)
put_line-IsPriced cart_id user_id p q (some line) =
    Keeps-bind IsPriced _ _
      (Keeps-modify IsPriced _ (λ db h.
        All-update _ _ (λ c. c.id == line.id) (λ _. repriced p q line) db.carts (λ _ _ _. refl)
          (λ _ _ k. k) h))
      (λ _. Keeps-pure IsPriced _)

-- Adding to a cart keeps the total of every row of every cart right.
pub add_to_cart-IsPriced :
    (cart_id product_id : Uuid) (q : ℕ) (user_id : Uuid)
    → (s : Session) → Holds IsPriced s
    → Holds IsPriced (add_to_cart cart_id product_id q user_id s).1
unfolding add_to_cart
add_to_cart-IsPriced cart_id product_id q user_id s h =
    let kept : Keeps IsPriced (add_to_cart cart_id product_id q user_id) =
      search (keeps_rules, put_line-IsPriced) depth 30 in
    kept.at s h
