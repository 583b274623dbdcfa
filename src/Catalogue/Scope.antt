-- ===== src/Catalogue/Scope.antt =====
-- What a manager sees and what a manager may change: ProductService.get_manager_products_page
-- against the guard of update_product and set_product_image.
use i_dolly_backend.Catalogue.Company.{
  IsCatalogue, resolve_product_company_ids-resolve_product_company_id,
}
use i_dolly_backend.Catalogue.Pages.{
  is_own_or_ownerless, manager_products, resolve_product_company_ids,
}
use i_dolly_backend.Catalogue.Products.{
  is_other_company, product_scope_violation, resolve_product_company_id,
}
use i_dolly_backend.Database.{Database}
use i_dolly_backend.Prelude.{
  ◌≤◌, ◌≡◌, refl, Bool, true, not, Option, none, some, List, [], ◌∷◌, Bool-cases, arith, count,
  filter, find, find-none_of_count, if◌then◌else◌, inl, inr, is_some, key-find, lookup, ◌==◌,
}
use i_dolly_backend.Schema.{is_manager}
use i_dolly_backend.Tables.{Product, User, Uuid}

find-filter-none :
    {A : Type 0} (q p : A → Bool) (xs : List A) → find q xs ≡ none → find q (filter p xs) ≡ none
find-filter-none q p [] h = refl
find-filter-none q p (x ∷ xs) h = ground (arith, h, find-filter-none q p xs)

-- Of a row that stands alone, a filter keeps it or nothing.
find-filter_one :
    {A : Type 0} (q p : A → Bool) (xs : List A) {x : A}
    → count q xs ≤ 1
    → find q xs ≡ some x
    → find q (filter p xs) ≡ (if p x then some x else none)
find-filter_one q p [] {x} h f = cc
find-filter_one q p (y ∷ xs) {x} h f = elim (Bool-cases (q y)) [
  | inl here ↦ ground (arith, h, f, here, find-filter-none q p xs, find-none_of_count q xs)
  | inr there ↦ ground (arith, h, f, there, find-filter_one q p xs {x = x})
]

is_own_or_ownerless-is_other_company :
    (user : User) (c : Uuid) (owner : Option Uuid)
    → user.company_id ≡ some c
    → is_own_or_ownerless c (some owner) ≡ not (is_other_company user owner)
is_own_or_ownerless-is_other_company user c none h = refl
is_own_or_ownerless-is_other_company user c (some owner) h = ground (arith, h)

-- The page of a manager who has a company lists exactly the products of the catalogue that the
-- manager may change, those of that company and those without an owner, where ids are unique and no
-- product is both an album and merch.
pub manager_products-product_scope_violation :
    (user : User) (c : Uuid) (db : Database) (k : Uuid) {p : Product}
    → is_manager user.role ≡ true
    → user.company_id ≡ some c
    → IsCatalogue db
    → count (λ x. x.id == k) db.products ≤ 1
    → find (λ x. x.id == k) db.products ≡ some p
    → is_some (find (λ x. x.id == k) (manager_products (some c) db))
      ≡ not (product_scope_violation k user db)
unfolding manager_products
manager_products-product_scope_violation user c db k {p} manages works rows unique seen =
    let companies = resolve_product_company_ids db.products db in
    let resolved =
      resolve_product_company_ids-resolve_product_company_id db.products db k {p = p} rows unique
        seen in
    let own : p.id ≡ k = key-find (λ x. x.id) k db.products seen in
    let kept =
      find-filter_one (λ x. x.id == k) (λ x. is_own_or_ownerless c (lookup x.id companies))
        db.products {x = p} unique seen in
    let test : is_own_or_ownerless c (lookup p.id companies)
        ≡ not (is_other_company user (resolve_product_company_id k db)) =
      rw (own, resolved) (is_own_or_ownerless-is_other_company user c _ works) in
    rw (kept, test, manages)
      (elim (Bool-cases (is_other_company user (resolve_product_company_id k db))) [
        | inl other ↦ rw other refl
        | inr free ↦ rw free refl
      ])
