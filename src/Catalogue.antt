-- ===== src/Catalogue.antt =====
-- What the catalogue services of app/services/marketplace share: the rows of a product, the
-- company that owns it, the scope of a manager, and what the database checks of a detail row.
pub mod Details
pub mod Genres
pub mod Categories
pub mod Removal
pub mod Products
pub mod Pages
pub mod Company
pub mod Kinds
pub mod Reachable
pub mod Scope
pub mod Shop
mod Tests
use i_dolly_backend.Database.{Database}
use i_dolly_backend.Error.{Error, ErrorClass, plain}
use i_dolly_backend.Prelude.{
  Bool, true, false, not, ◌&&◌, ◌||◌, Option, none, some, ◌++◌, [], ◌∷◌, if◌then◌else◌, ◌==◌, find,
  is_some, ltb,
}
use i_dolly_backend.Rows.{same_company}
use i_dolly_backend.Schema.{is_manager}
use i_dolly_backend.Session.{Service, write}
use i_dolly_backend.Tables.{AlbumDetail, Category, Group, Idol, MerchDetail, Product, User, Uuid}

abbrev pub find_idol : Uuid → Database → Option Idol
find_idol k db = find (λ x. x.id == k) db.idols

abbrev pub find_group : Uuid → Database → Option Group
find_group k db = find (λ x. x.id == k) db.groups

abbrev pub find_product : Uuid → Database → Option Product
find_product k db = find (λ x. x.id == k) db.products

abbrev pub find_category : Uuid → Database → Option Category
find_category k db = find (λ x. x.id == k) db.categories

abbrev pub find_album : Uuid → Database → Option AlbumDetail
find_album k db = find (λ x. x.product_id == k) db.album_details

abbrev pub find_merch : Uuid → Database → Option MerchDetail
find_merch k db = find (λ x. x.product_id == k) db.merch_details

abbrev pub company_of_idol : Option Idol → Option Uuid
company_of_idol none = none
company_of_idol (some idol) = some idol.company_id

abbrev pub company_of_group : Option Group → Option Uuid
company_of_group none = none
company_of_group (some group) = some group.company_id

-- `_resolve_company_id`, and ProductService._resolve_owner_company_id, on an idol_id and a group_id.
abbrev pub resolve_company_id : Database → Option Uuid → Option Uuid → Option Uuid
resolve_company_id db (some idol_id) group_id = company_of_idol (find_idol idol_id db)
resolve_company_id db none (some group_id) = company_of_group (find_group group_id db)
resolve_company_id db none none = none

abbrev pub is_active_or_missing_idol : Option Idol → Bool
is_active_or_missing_idol none = true
is_active_or_missing_idol (some idol) = idol.is_active

abbrev pub is_active_or_missing_group : Option Group → Bool
is_active_or_missing_group none = true
is_active_or_missing_group (some group) = group.is_active

-- `_artist_active_or_missing`, and ProductService._owner_active_or_missing.
abbrev pub artist_active_or_missing : Database → Option Uuid → Option Uuid → Bool
artist_active_or_missing db (some idol_id) group_id =
    is_active_or_missing_idol (find_idol idol_id db)
artist_active_or_missing db none (some group_id) =
    is_active_or_missing_group (find_group group_id db)
artist_active_or_missing db none none = true

-- `_manager_scope_violation` of the detail and genre services.
abbrev pub manager_scope_violation : User → Option Uuid → Bool
manager_scope_violation current_user company_id' =
    is_manager current_user.role && not (same_company current_user.company_id company_id')

-- chk_album_details_artist and chk_album_details_track_count
abbrev pub album_checks : AlbumDetail → Bool
album_checks a =
    (is_some a.idol_id || is_some a.group_id)
    && (elim a.track_count [ none ↦ true | some k ↦ ltb 0 k ])

-- chk_merch_details_owner
abbrev pub merch_checks : MerchDetail → Bool
merch_checks d =
    (is_some d.idol_id && not (is_some d.group_id))
    || (not (is_some d.idol_id) && is_some d.group_id)

-- trg_album_details_exclusive_kind, the check constraints and the primary key of album_details.
unfoldable pub check_album : AlbumDetail → Database → Option Error
check_album a db =
    if is_some (find_merch a.product_id db)
    then some (plain ErrorClass.product_detail_kind_conflict)
    else (if album_checks a && not (is_some (find_album a.product_id db))
        then none
        else some (plain ErrorClass.dbapi_error))

-- The same of merch_details.
unfoldable pub check_merch : MerchDetail → Database → Option Error
check_merch d db =
    if is_some (find_album d.product_id db)
    then some (plain ErrorClass.product_detail_kind_conflict)
    else (if merch_checks d && not (is_some (find_merch d.product_id db))
        then none
        else some (plain ErrorClass.dbapi_error))

-- INSERT INTO album_details
unfoldable pub insert_album : AlbumDetail → Service (Unit {0})
insert_album a =
    write (check_album a) (λ db. record db { album_details = db.album_details ++ a ∷ [] })

-- INSERT INTO merch_details
unfoldable pub insert_merch : MerchDetail → Service (Unit {0})
insert_merch d =
    write (check_merch d) (λ db. record db { merch_details = db.merch_details ++ d ∷ [] })
