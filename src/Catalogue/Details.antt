-- ===== src/Catalogue/Details.antt =====
-- app/services/marketplace/album_detail_service.py and merch_detail_service.py.
use i_dolly_backend.Catalogue.{
  artist_active_or_missing, find_album, find_merch, find_product, insert_album, insert_merch,
  manager_scope_violation, resolve_company_id,
}
use i_dolly_backend.Database.{Database}
use i_dolly_backend.Error.{ErrorClass, plain}
use i_dolly_backend.Prelude.{
  ℕ, Bool, false, not, Option, none, some, ◌==◌, any, contains, delete, is_some, update,
}
use i_dolly_backend.Schema.{ReleaseFormat}
use i_dolly_backend.Session.{Service, pure, query, found, raise_if, modify, commit, ◌>>=◌, ◌>>◌}
use i_dolly_backend.Tables.{AlbumDetail, MerchDetail, Text, Time, User, Uuid}

abbrev pub put_album : AlbumDetail → Database → Database
put_album a db = record db {
  album_details = update (λ x. x.product_id == a.product_id) (λ _. a) db.album_details;
}

abbrev pub put_merch : MerchDetail → Database → Database
put_merch d db = record db {
  merch_details = update (λ x. x.product_id == d.product_id) (λ _. d) db.merch_details;
}

-- `color_id is not None and not db.get(IdolColor, color_id)`
abbrev pub is_missing_color : Option Uuid → Database → Bool
is_missing_color none db = false
is_missing_color (some color_id) db = not (contains color_id db.idol_colors)

-- AlbumDetailService.add_album_detail
unfoldable pub add_album_detail : AlbumDetail → User → Service AlbumDetail
add_album_detail data' current_user = do
  found (plain ErrorClass.not_found) (← query (find_product data'.product_id))
  raise_if (plain ErrorClass.bad_request) (is_some (← query (find_album data'.product_id)))
  raise_if (plain ErrorClass.bad_request)
      (not (← query (λ db. artist_active_or_missing db data'.idol_id data'.group_id)))
  company_id' ←
      found (plain ErrorClass.not_found)
        (← query (λ db. resolve_company_id db data'.idol_id data'.group_id))
  raise_if (plain ErrorClass.forbidden) (manager_scope_violation current_user (some company_id'))
  insert_album data'
  commit
  pure data'

-- The album details of a product that the user may manage: the lookup and the guard that
-- update_album_detail and delete_album_detail begin with.
unfoldable pub managed_album : Uuid → User → Service AlbumDetail
managed_album product_id' current_user = do
  db_album ← found (plain ErrorClass.not_found) (← query (find_album product_id'))
  company_id' ← query (λ db. resolve_company_id db db_album.idol_id db_album.group_id)
  raise_if (plain ErrorClass.forbidden) (manager_scope_violation current_user company_id')
  pure db_album

-- AlbumDetailService.update_album_detail; a track count of the request is positive.
unfoldable pub update_album_detail :
    Uuid → Option Time → Option ℕ → ReleaseFormat → User → Service AlbumDetail
update_album_detail product_id' release_date' track_count' format' current_user = do
  db_album ← managed_album product_id' current_user
  let updated : AlbumDetail = record db_album {
    release_date = release_date';
    track_count = track_count';
    format = format';
  }
  modify (put_album updated)
  commit
  pure updated

-- AlbumDetailService.delete_album_detail. The relationship `genres` has no passive_deletes, so
-- SQLAlchemy sets the product_id of the album's genres to NULL first, which it refuses, since that
-- column is a part of their primary key.
unfoldable pub delete_album_detail : Uuid → User → Service AlbumDetail
delete_album_detail product_id' current_user = do
  db_album ← managed_album product_id' current_user
  raise_if (plain ErrorClass.assertion_error)
      (← query (λ db. any (λ x. x.product_id == db_album.product_id) db.album_genres))
  modify (λ db. record db {
    album_details = delete (λ x. x.product_id == db_album.product_id) db.album_details;
  })
  commit
  pure db_album

-- MerchDetailService.add_merch_detail
unfoldable pub add_merch_detail : MerchDetail → User → Service MerchDetail
add_merch_detail data' current_user = do
  found (plain ErrorClass.not_found) (← query (find_product data'.product_id))
  raise_if (plain ErrorClass.bad_request) (is_some (← query (find_merch data'.product_id)))
  raise_if (plain ErrorClass.not_found) (← query (is_missing_color data'.color_id))
  raise_if (plain ErrorClass.bad_request)
      (not (← query (λ db. artist_active_or_missing db data'.idol_id data'.group_id)))
  company_id' ←
      found (plain ErrorClass.not_found)
        (← query (λ db. resolve_company_id db data'.idol_id data'.group_id))
  raise_if (plain ErrorClass.forbidden) (manager_scope_violation current_user (some company_id'))
  insert_merch data'
  commit
  pure data'

unfoldable pub managed_merch : Uuid → User → Service MerchDetail
managed_merch product_id' current_user = do
  db_ls ← found (plain ErrorClass.not_found) (← query (find_merch product_id'))
  company_id' ← query (λ db. resolve_company_id db db_ls.idol_id db_ls.group_id)
  raise_if (plain ErrorClass.forbidden) (manager_scope_violation current_user company_id')
  pure db_ls

-- MerchDetailService.update_merch_detail
unfoldable pub update_merch_detail : Uuid → Option Text → Option Uuid → User → Service MerchDetail
update_merch_detail product_id' edition' color_id' current_user = do
  db_ls ← managed_merch product_id' current_user
  raise_if (plain ErrorClass.not_found) (← query (is_missing_color color_id'))
  let updated : MerchDetail = record db_ls { edition = edition'; color_id = color_id' }
  modify (put_merch updated)
  commit
  pure updated

-- MerchDetailService.delete_merch_detail
unfoldable pub delete_merch_detail : Uuid → User → Service MerchDetail
delete_merch_detail product_id' current_user = do
  db_ls ← managed_merch product_id' current_user
  modify (λ db. record db {
    merch_details = delete (λ x. x.product_id == db_ls.product_id) db.merch_details;
  })
  commit
  pure db_ls
