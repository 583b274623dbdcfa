-- ===== src/Catalogue/Tests.antt =====
-- The catalogue services, run on a small catalogue.
use i_dolly_backend.Catalogue.Company.{
  OneKind, resolve_product_company_ids-resolve_product_company_id,
}
use i_dolly_backend.Catalogue.Details.{add_album_detail, add_merch_detail}
use i_dolly_backend.Catalogue.Pages.{manager_products, resolve_product_company_ids}
use i_dolly_backend.Catalogue.Products.{resolve_product_company_id}
use i_dolly_backend.Catalogue.Reachable.{Reach, Reach-OneKind, Step}
use i_dolly_backend.Catalogue.Scope.{manager_products-product_scope_violation}
use i_dolly_backend.Catalogue.Shop.{
  album_of, merch_of, product_of, shop, shop-IsCatalogue, shop-OneKind,
}
use i_dolly_backend.Fixtures.{manager}
use i_dolly_backend.Prelude.{◌≡◌, refl, false, some, arith, find, is_some, lookup, ◌==◌}
use i_dolly_backend.Session.{start}

-- An album for product 70, and then merch for it, which the trigger refuses.
Reach-OneKind_example :
    OneKind
      (add_merch_detail
        (merch_of 70 50)
        manager
        (start (add_album_detail (album_of 70 55) manager (start shop)).1.committed)).1.committed
Reach-OneKind_example =
    Reach-OneKind
      (Reach.next (Reach.next Reach.here (Step.album (album_of 70 55) manager))
        (Step.merch (merch_of 70 50) manager))
      shop-OneKind

resolve_product_company_ids-resolve_product_company_id_example :
    lookup 72 (resolve_product_company_ids shop.products shop) ≡ some (some 9)
unfolding resolve_product_company_id
resolve_product_company_ids-resolve_product_company_id_example =
    resolve_product_company_ids-resolve_product_company_id shop.products shop 72 {p = product_of 72}
      shop-IsCatalogue (omega arith) refl

-- The manager of company 7 does not see the merch of company 9.
manager_products-product_scope_violation_example :
    is_some (find (λ x. x.id == 72) (manager_products (some 7) shop)) ≡ false
unfolding resolve_product_company_id
manager_products-product_scope_violation_example =
    manager_products-product_scope_violation manager 7 shop 72 {p = product_of 72} refl refl
      shop-IsCatalogue (omega arith) refl
