-- ===== src/Catalogue/Shop.antt =====
-- A small catalogue with two companies, on which the tests run the catalogue and talent services.
use i_dolly_backend.Catalogue.Company.{IsCatalogue, OneKind}
use i_dolly_backend.Database.{Database}
use i_dolly_backend.Fixtures.{db}
use i_dolly_backend.Prelude.{Bool, true, false, none, some, [], ◌∷◌, arith, Option}
use i_dolly_backend.Schema.{ReleaseFormat}
use i_dolly_backend.Tables.{AlbumDetail, Group, Idol, MerchDetail, Product, Uuid}

abbrev pub group_of_company : Uuid → Uuid → Bool → Group
group_of_company k company active = record {
  id = k;
  company_id = company;
  name = k;
  debut_date = none;
  description = none;
  is_active = active;
}

abbrev pub idol_of_group : Uuid → Uuid → Option Uuid → Idol
idol_of_group k company group = record {
  id = k;
  company_id = company;
  group_id = group;
  name = k;
  date_of_birth = none;
  hometown = none;
  color_id = some 58;
  short_intro = none;
  long_description = none;
  profile_image_url = none;
  is_active = true;
}

abbrev pub product_of : Uuid → Product
product_of k = record {
  id = k;
  name = k;
  description = 1;
  image_url = none;
  price = 300000;
  quantity = 5;
  category_id = 80;
}

abbrev pub album_of : Uuid → Uuid → AlbumDetail
album_of k idol = record {
  product_id = k;
  idol_id = some idol;
  group_id = none;
  release_date = none;
  track_count = some 12;
  format = ReleaseFormat.physical;
}

abbrev pub merch_of : Uuid → Uuid → MerchDetail
merch_of k group = record {
  product_id = k;
  idol_id = none;
  group_id = some group;
  edition = none;
  color_id = none;
}

-- Product 71 is an album of company 7's idol 55, 72 is merch of company 9's group 51, which is
-- deactivated, and 70 is nobody's.
abbrev pub shop : Database
shop = record db {
  management_companies = 7 ∷ 9 ∷ [];
  idol_colors = 58 ∷ [];
  groups = group_of_company 50 7 true ∷ group_of_company 51 9 false ∷ [];
  idols = idol_of_group 55 7 (some 50) ∷ idol_of_group 56 9 (some 51) ∷ [];
  products = product_of 70 ∷ product_of 71 ∷ product_of 72 ∷ [];
  album_details = album_of 71 55 ∷ [];
  merch_details = merch_of 72 51 ∷ [];
}

pub shop-OneKind : OneKind shop
shop-OneKind k = ground arith

pub shop-IsCatalogue : IsCatalogue shop
shop-IsCatalogue = record {
  one_kind = shop-OneKind;
  idols = λ k. ground arith;
  groups = λ k. ground arith;
}
