-- ===== src/Catalogue/Pages.antt =====
-- app/services/marketplace/product_service.py: resolve_product_company_ids and the pages of a
-- manager's products.
use i_dolly_backend.Database.{Database}
use i_dolly_backend.Prelude.{
  ℕ, Bool, true, false, Option, none, some, List, [], ◌∷◌, map, if◌then◌else◌, ◌==◌, contains,
  dict_set, filter, lookup,
}
use i_dolly_backend.Rows.{same_company}
use i_dolly_backend.Schema.{is_manager}
use i_dolly_backend.Tables.{AlbumDetail, Category, Group, Idol, MerchDetail, Product, User, Uuid}

-- What an album and a merch detail have in common.
pub record Detail : Type 0 where
  pub product_id : Uuid
  pub idol_id : Option Uuid
  pub group_id : Option Uuid

abbrev pub album_as_detail : AlbumDetail → Detail
album_as_detail a = record { product_id = a.product_id; idol_id = a.idol_id; group_id = a.group_id }

abbrev pub merch_as_detail : MerchDetail → Detail
merch_as_detail d = record { product_id = d.product_id; idol_id = d.idol_id; group_id = d.group_id }

-- `for x in xs: m[key(x)] = val(x)`; a comprehension starts from the empty dict.
abbrev pub dict_add {ℓ κ} :
    {A : Type ℓ} {V : Type κ} → (A → ℕ) → (A → V) → List A → List (ℕ × V) → List (ℕ × V)
dict_add key val [] m = m
dict_add key val (x ∷ xs) m = dict_add key val xs (dict_set (key x) (val x) m)

-- `{d.idol_id for d in detail_by_product.values() if d.idol_id}`, with the field as an argument.
abbrev pub artist_ids : (Detail → Option Uuid) → List (ℕ × Detail) → List Uuid
artist_ids field [] = []
artist_ids field ((k, d) ∷ m) =
    let rest = artist_ids field m in elim (field d) [ none ↦ rest | some i ↦ i ∷ rest ]

abbrev pub product_ids : List Product → List Uuid
product_ids products' = map (λ p. p.id) products'

abbrev pub detail_by_product : List Product → Database → List (ℕ × Detail)
detail_by_product products' db =
    dict_add (λ d. d.product_id) merch_as_detail
      (filter (λ d. contains d.product_id (product_ids products')) db.merch_details)
      (dict_add (λ a. a.product_id) album_as_detail
        (filter (λ a. contains a.product_id (product_ids products')) db.album_details) [])

abbrev pub idol_company : List (ℕ × Detail) → Database → List (ℕ × Uuid)
idol_company details db =
    dict_add (λ i. i.id) (λ i. i.company_id)
      (filter (λ i. contains i.id (artist_ids (λ d. d.idol_id) details)) db.idols) []

abbrev pub group_company : List (ℕ × Detail) → Database → List (ℕ × Uuid)
group_company details db =
    dict_add (λ g. g.id) (λ g. g.company_id)
      (filter (λ g. contains g.id (artist_ids (λ d. d.group_id) details)) db.groups) []

-- The body of the last loop.
abbrev pub company_of_detail : Option Detail → List (ℕ × Uuid) → List (ℕ × Uuid) → Option Uuid
company_of_detail none idols groups = none
company_of_detail (some d) idols groups = elim d.idol_id [
  | some i ↦ lookup i idols
  | none ↦ elim d.group_id [ some g ↦ lookup g groups | none ↦ none ]
]

-- ProductService.resolve_product_company_ids
unfoldable pub resolve_product_company_ids : List Product → Database → List (ℕ × Option Uuid)
resolve_product_company_ids products' db =
    let details = detail_by_product products' db in
    dict_add (λ p. p.id)
      (λ p.
        company_of_detail (lookup p.id details) (idol_company details db)
          (group_company details db))
      products' []

-- `company_by_product[p.id] in (None, company_id)`
abbrev pub is_own_or_ownerless : Uuid → Option (Option Uuid) → Bool
is_own_or_ownerless company_id' none = false
is_own_or_ownerless company_id' (some none) = true
is_own_or_ownerless company_id' (some (some owner)) = owner == company_id'

-- The products of ProductService.get_manager_products_page; none is an admin's request.
unfoldable pub manager_products : Option Uuid → Database → List Product
manager_products none db = db.products
manager_products (some company_id') db =
    let company_by_product = resolve_product_company_ids db.products db in
    filter (λ p. is_own_or_ownerless company_id' (lookup p.id company_by_product)) db.products

-- ManagerProductFormPageRead
pub record ProductFormPage : Type 0 where
  pub products : List Product
  pub categories : List Category
  pub idols : List Idol
  pub groups : List Group
  pub colors : List Uuid

-- ProductService.get_manager_product_form_page
unfoldable pub get_manager_product_form_page : Option Uuid → Database → ProductFormPage
get_manager_product_form_page company_id' db = record {
  products = manager_products company_id' db;
  categories = db.categories;
  idols = db.idols;
  groups = db.groups;
  colors = db.idol_colors;
}

-- ProductService.scope_manager_product_form_page
unfoldable pub scope_manager_product_form_page : ProductFormPage → User → ProductFormPage
scope_manager_product_form_page page current_user =
    if is_manager current_user.role
    then record page {
      idols = filter (λ i. same_company (some i.company_id) current_user.company_id) page.idols;
      groups = filter (λ g. same_company (some g.company_id) current_user.company_id) page.groups;
    }
    else page
