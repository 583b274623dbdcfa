-- ===== src/Catalogue/Kinds.antt =====
-- The catalogue services as steps of one database: a product never becomes both an album and merch.
use i_dolly_backend.Catalogue.{
  check_album, check_merch, find_album, find_merch, insert_album, insert_merch,
}
use i_dolly_backend.Catalogue.Company.{OneKind}
use i_dolly_backend.Catalogue.Details.{
  add_album_detail, add_merch_detail, delete_album_detail, delete_merch_detail, managed_album,
  managed_merch, put_album, put_merch, update_album_detail, update_merch_detail,
}
use i_dolly_backend.Catalogue.Products.{
  DetailKind, ProductWithDetailCreate, add_product_row, add_product_with_detail, insert_detail,
  managed_product, put_product,
}
use i_dolly_backend.Catalogue.Removal.{delete_product, drop_product}
use i_dolly_backend.Database.{Database}
use i_dolly_backend.Prelude.{
  ℕ, ◌+◌, ◌≤◌, ◌≡◌, Bool, Option, none, some, List, [], ◌∷◌, ◌++◌, Bool-cases, Option-cases, arith,
  count, count-append, count-delete-le, count-put, count_zero_of_find, delete, find, inl, inr, ◌==◌,
  ==→eq,
}
use i_dolly_backend.Schema.{ReleaseFormat}
use i_dolly_backend.Session.Invariant.{Keeps, Keeps-write, keeps_rules}
use i_dolly_backend.Tables.{AlbumDetail, MerchDetail, Product, Text, Time, User, Uuid}

-- What the database has checked of an album row that it takes.
check_album-none :
    (a : AlbumDetail) (db : Database)
    → check_album a db ≡ none
    → (find_merch a.product_id db ≡ none) × (find_album a.product_id db ≡ none)
unfolding check_album
check_album-none a db h = elim (Option-cases (find_merch a.product_id db)) [
  | inr (d, merch) ↦ absurd (ground (arith, h, merch))
  | inl plain ↦ elim (Option-cases (find_album a.product_id db)) [
    | inr (b, album) ↦ absurd (ground (arith, h, plain, album))
    | inl bare ↦ (plain, bare)
  ]
]

check_merch-none :
    (d : MerchDetail) (db : Database)
    → check_merch d db ≡ none
    → (find_merch d.product_id db ≡ none) × (find_album d.product_id db ≡ none)
unfolding check_merch
check_merch-none d db h = elim (Option-cases (find_album d.product_id db)) [
  | inr (b, album) ↦ absurd (ground (arith, h, album))
  | inl plain ↦ elim (Option-cases (find_merch d.product_id db)) [
    | inr (e, merch) ↦ absurd (ground (arith, h, plain, merch))
    | inl bare ↦ (bare, plain)
  ]
]

-- A row whose key is in neither of two tables is added to one of them.
count-two :
    {A B : Type 0} (f : A → ℕ) (g : B → ℕ) (x : A) (xs : List A) (ys : List B) (k : ℕ)
    → find (λ z. f z == f x) xs ≡ none
    → find (λ z. g z == f x) ys ≡ none
    → count (λ z. f z == k) xs + count (λ z. g z == k) ys ≤ 1
    → count (λ z. f z == k) (xs ++ x ∷ []) + count (λ z. g z == k) ys ≤ 1
count-two f g x xs ys k free free' h =
    let grown = count-append (λ z. f z == k) xs (x ∷ []) in
    elim (Bool-cases (f x == k)) [
      | inl own ↦
          let same : f x ≡ k = ==→eq (f x) k own in
          let none_here = count_zero_of_find (λ z. f z == k) xs (rw same at free) in
          let none_there = count_zero_of_find (λ z. g z == k) ys (rw same at free') in
          ground (arith, own, grown, none_here, none_there)
      | inr other ↦ ground (arith, other, grown, h)
    ]

insert_album-OneKind : (a : AlbumDetail) → Keeps OneKind (insert_album a)
unfolding insert_album
insert_album-OneKind a = Keeps-write OneKind _ _ λ db checked h k.
    let (plain, bare) = check_album-none a db checked in
    count-two (λ z. z.product_id) (λ z. z.product_id) a db.album_details db.merch_details k bare
      plain (h k)

insert_merch-OneKind : (d : MerchDetail) → Keeps OneKind (insert_merch d)
unfolding insert_merch
insert_merch-OneKind d = Keeps-write OneKind _ _ λ db checked h k.
    let (bare, plain) = check_merch-none d db checked in
    omega (
      arith,
      count-two (λ z. z.product_id) (λ z. z.product_id) d db.merch_details db.album_details k bare
          plain (omega (arith, h k)),
    )

insert_detail-OneKind :
    (k : Uuid) (idol group : Option Uuid) (kind : DetailKind)
    → Keeps OneKind (insert_detail k idol group kind)
unfolding insert_detail
insert_detail-OneKind k idol group (DetailKind.album released tracks none) = search keeps_rules
insert_detail-OneKind k idol group (DetailKind.album released tracks (some format')) =
    insert_album-OneKind _
insert_detail-OneKind k idol group (DetailKind.merch edition' color) = insert_merch-OneKind _

put_album-OneKind : (a : AlbumDetail) (db : Database) → OneKind db → OneKind (put_album a db)
put_album-OneKind a db h k = omega (arith, h k, count-put (λ z. z.product_id) k a db.album_details)

put_merch-OneKind : (d : MerchDetail) (db : Database) → OneKind db → OneKind (put_merch d db)
put_merch-OneKind d db h k = omega (arith, h k, count-put (λ z. z.product_id) k d db.merch_details)

add_product_row-OneKind :
    (p : Product) (db : Database) → OneKind db → OneKind (add_product_row p db)
add_product_row-OneKind p db h = h

pub put_product-OneKind : (p : Product) (db : Database) → OneKind db → OneKind (put_product p db)
put_product-OneKind p db h = h

ruleset kind_rules = (
  keeps_rules, insert_album-OneKind, insert_merch-OneKind, insert_detail-OneKind, put_album-OneKind,
  put_merch-OneKind, add_product_row-OneKind, put_product-OneKind,
)

pub add_album_detail-OneKind :
    (a : AlbumDetail) (user : User) → Keeps OneKind (add_album_detail a user)
unfolding add_album_detail
add_album_detail-OneKind a user = search kind_rules depth 40

pub add_merch_detail-OneKind :
    (d : MerchDetail) (user : User) → Keeps OneKind (add_merch_detail d user)
unfolding add_merch_detail
add_merch_detail-OneKind d user = search kind_rules depth 40

managed_album-OneKind : (k : Uuid) (user : User) → Keeps OneKind (managed_album k user)
unfolding managed_album
managed_album-OneKind k user = search kind_rules depth 20

managed_merch-OneKind : (k : Uuid) (user : User) → Keeps OneKind (managed_merch k user)
unfolding managed_merch
managed_merch-OneKind k user = search kind_rules depth 20

pub managed_product-OneKind : (k : Uuid) (user : User) → Keeps OneKind (managed_product k user)
unfolding managed_product
managed_product-OneKind k user = search kind_rules depth 20

ruleset managed_rules =
    (kind_rules, managed_album-OneKind, managed_merch-OneKind, managed_product-OneKind)

pub update_album_detail-OneKind :
    (k : Uuid) (released : Option Time) (tracks : Option ℕ) (format' : ReleaseFormat) (user : User)
    → Keeps OneKind (update_album_detail k released tracks format' user)
unfolding update_album_detail
update_album_detail-OneKind k released tracks format' user = search managed_rules depth 20

pub update_merch_detail-OneKind :
    (k : Uuid) (edition' : Option Text) (color : Option Uuid) (user : User)
    → Keeps OneKind (update_merch_detail k edition' color user)
unfolding update_merch_detail
update_merch_detail-OneKind k edition' color user = search managed_rules depth 30

delete_album-OneKind :
    (p : AlbumDetail → Bool) (db : Database)
    → OneKind db
    → OneKind (record db { album_details = delete p db.album_details })
delete_album-OneKind p db h k =
    omega (arith, h k, count-delete-le (λ a. a.product_id == k) p db.album_details)

pub delete_album_detail-OneKind :
    (k : Uuid) (user : User) → Keeps OneKind (delete_album_detail k user)
unfolding delete_album_detail
delete_album_detail-OneKind k user = search (managed_rules, delete_album-OneKind) depth 30

delete_merch-OneKind :
    (p : MerchDetail → Bool) (db : Database)
    → OneKind db
    → OneKind (record db { merch_details = delete p db.merch_details })
delete_merch-OneKind p db h k =
    omega (arith, h k, count-delete-le (λ d. d.product_id == k) p db.merch_details)

pub delete_merch_detail-OneKind :
    (k : Uuid) (user : User) → Keeps OneKind (delete_merch_detail k user)
unfolding delete_merch_detail
delete_merch_detail-OneKind k user = search (managed_rules, delete_merch-OneKind) depth 30

pub add_product_with_detail-OneKind :
    (k : Uuid) (data' : ProductWithDetailCreate) (image : Option Text) (user : User)
    → Keeps OneKind (add_product_with_detail k data' image user)
unfolding add_product_with_detail
add_product_with_detail-OneKind k data' image user = search kind_rules depth 60

drop_product-OneKind : (k : Uuid) (db : Database) → OneKind db → OneKind (drop_product k db)
drop_product-OneKind k db h j = omega (
  arith,
  h j,
  count-delete-le (λ a. a.product_id == j) (λ x. x.product_id == k) db.album_details,
  count-delete-le (λ d. d.product_id == j) (λ x. x.product_id == k) db.merch_details,
)

pub delete_product-OneKind : (k : Uuid) (user : User) → Keeps OneKind (delete_product k user)
unfolding delete_product
delete_product-OneKind k user =
    search (keeps_rules, managed_product-OneKind, drop_product-OneKind) depth 30
