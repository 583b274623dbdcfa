-- ===== src/Catalogue/Reachable.antt =====
-- The catalogue services in any order: what holds in every database that they reach.
use i_dolly_backend.Catalogue.Company.{OneKind}
use i_dolly_backend.Catalogue.Details.{
  add_album_detail, add_merch_detail, delete_album_detail, delete_merch_detail, update_album_detail,
  update_merch_detail,
}
use i_dolly_backend.Catalogue.Kinds.{
  add_album_detail-OneKind, add_merch_detail-OneKind, add_product_with_detail-OneKind,
  delete_album_detail-OneKind, delete_merch_detail-OneKind, delete_product-OneKind,
  managed_product-OneKind, put_product-OneKind, update_album_detail-OneKind,
  update_merch_detail-OneKind,
}
use i_dolly_backend.Catalogue.Products.{
  ProductCreate, ProductWithDetailCreate, add_bulk_products, add_product, add_product_with_detail,
  set_product_image, update_product,
}
use i_dolly_backend.Catalogue.Removal.{delete_product}
use i_dolly_backend.Database.{Database}
use i_dolly_backend.Prelude.{ℕ, Option, List, ◌++◌}
use i_dolly_backend.Schema.{ReleaseFormat}
use i_dolly_backend.Session.{start}
use i_dolly_backend.Session.Invariant.{Keeps, keeps_rules}
use i_dolly_backend.Tables.{AlbumDetail, MerchDetail, Product, Text, Time, User, Uuid}

append_products-OneKind :
    (ps : List Product) (db : Database)
    → OneKind db
    → OneKind (record db { products = db.products ++ ps })
append_products-OneKind ps db h = h

ruleset product_rules =
    (keeps_rules, append_products-OneKind, managed_product-OneKind, put_product-OneKind)

add_product-OneKind : (k : Uuid) (p : ProductCreate) → Keeps OneKind (add_product k p)
unfolding add_product
add_product-OneKind k p = search product_rules depth 20

update_product-OneKind :
    (k : Uuid) (p : ProductCreate) (user : User) → Keeps OneKind (update_product k p user)
unfolding update_product
update_product-OneKind k p user = search product_rules depth 30

set_product_image-OneKind :
    (k : Uuid) (image : Text) (user : User) → Keeps OneKind (set_product_image k image user)
unfolding set_product_image
set_product_image-OneKind k image user = search product_rules depth 20

add_bulk_products-OneKind :
    (batch : List (Uuid × ProductCreate)) → Keeps OneKind (add_bulk_products batch)
unfolding add_bulk_products
add_bulk_products-OneKind batch = search product_rules depth 20

-- One call of a catalogue service, run in a session of its own.
pub data Step (db : Database) : Database → Type 0 where
  product : (k : Uuid) (p : ProductCreate) → Step db (add_product k p (start db)).1.committed
  product_with_detail :
      (k : Uuid) (data' : ProductWithDetailCreate) (image : Option Text) (user : User)
      → Step db (add_product_with_detail k data' image user (start db)).1.committed
  changed_product :
      (k : Uuid) (p : ProductCreate) (user : User)
      → Step db (update_product k p user (start db)).1.committed
  image_set :
      (k : Uuid) (image : Text) (user : User)
      → Step db (set_product_image k image user (start db)).1.committed
  bulk :
      (batch : List (Uuid × ProductCreate))
      → Step db (add_bulk_products batch (start db)).1.committed
  no_product : (k : Uuid) (user : User) → Step db (delete_product k user (start db)).1.committed
  album : (a : AlbumDetail) (user : User) → Step db (add_album_detail a user (start db)).1.committed
  changed_album :
      (k : Uuid) (released : Option Time) (tracks : Option ℕ) (format' : ReleaseFormat)
      (user : User)
      → Step db (update_album_detail k released tracks format' user (start db)).1.committed
  no_album : (k : Uuid) (user : User) → Step db (delete_album_detail k user (start db)).1.committed
  merch : (d : MerchDetail) (user : User) → Step db (add_merch_detail d user (start db)).1.committed
  changed_merch :
      (k : Uuid) (edition' : Option Text) (color : Option Uuid) (user : User)
      → Step db (update_merch_detail k edition' color user (start db)).1.committed
  no_merch : (k : Uuid) (user : User) → Step db (delete_merch_detail k user (start db)).1.committed

pub data Reach (db : Database) : Database → Type 0 where
  here : Reach db db
  next : {mid db' : Database} → Reach db mid → Step mid db' → Reach db db'

Step-OneKind : {db db' : Database} → Step db db' → OneKind db → OneKind db'
Step-OneKind {db} (product k p) h = ((add_product-OneKind k p).at (start db) (h, h)).1
Step-OneKind {db} (product_with_detail k d image user) h =
    ((add_product_with_detail-OneKind k d image user).at (start db) (h, h)).1
Step-OneKind {db} (changed_product k p user) h =
    ((update_product-OneKind k p user).at (start db) (h, h)).1
Step-OneKind {db} (image_set k image user) h =
    ((set_product_image-OneKind k image user).at (start db) (h, h)).1
Step-OneKind {db} (bulk batch) h = ((add_bulk_products-OneKind batch).at (start db) (h, h)).1
Step-OneKind {db} (no_product k user) h = ((delete_product-OneKind k user).at (start db) (h, h)).1
Step-OneKind {db} (album a user) h = ((add_album_detail-OneKind a user).at (start db) (h, h)).1
Step-OneKind {db} (changed_album k released tracks format' user) h =
    ((update_album_detail-OneKind k released tracks format' user).at (start db) (h, h)).1
Step-OneKind {db} (no_album k user) h =
    ((delete_album_detail-OneKind k user).at (start db) (h, h)).1
Step-OneKind {db} (merch d user) h = ((add_merch_detail-OneKind d user).at (start db) (h, h)).1
Step-OneKind {db} (changed_merch k edition' color user) h =
    ((update_merch_detail-OneKind k edition' color user).at (start db) (h, h)).1
Step-OneKind {db} (no_merch k user) h =
    ((delete_merch_detail-OneKind k user).at (start db) (h, h)).1

-- In every database that calls of the catalogue services reach, in any order and by any users, no
-- product is both an album and merch, and none has two detail rows.
pub Reach-OneKind : {db db' : Database} → Reach db db' → OneKind db → OneKind db'
Reach-OneKind here h = h
Reach-OneKind (next r st) h = Step-OneKind st (Reach-OneKind r h)
