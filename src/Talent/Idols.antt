-- ===== src/Talent/Idols.antt =====
-- app/services/talent/idol_service.py.
use i_dolly_backend.Catalogue.{find_group, find_idol}
use i_dolly_backend.Catalogue.Details.{is_missing_color}
use i_dolly_backend.Database.{Database}
use i_dolly_backend.Error.{Error, ErrorClass, plain}
use i_dolly_backend.Prelude.{
  Bool, true, false, not, ◌&&◌, Option, none, some, List, [], ◌∷◌, ◌++◌, if◌then◌else◌, ◌==◌, any,
  filter, update,
}
use i_dolly_backend.Rows.{same_company}
use i_dolly_backend.Schema.{is_manager}
use i_dolly_backend.Session.{
  Service, pure, query, raise, found, raise_if, modify, write, commit, ◌>>=◌, ◌>>◌,
}
use i_dolly_backend.Tables.{Group, Idol, Text, Time, User, Uuid}
use i_dolly_backend.Talent.{RefIssue, is_out_of_scope, validate_refs}
use i_dolly_backend.Talent.Groups.{is_member}

abbrev pub put_idol : Idol → Database → Database
put_idol idol db = record db { idols = update (λ i. i.id == idol.id) (λ _. idol) db.idols }

-- The exception for an issue; none goes on.
abbrev pub issue_error : RefIssue → Error
issue_error RefIssue.company_mismatch = plain ErrorClass.bad_request
issue_error RefIssue.group_inactive = plain ErrorClass.bad_request
issue_error _ = plain ErrorClass.not_found

unfoldable pub raise_issue : Option RefIssue → Service (Unit {0})
raise_issue none = pure tt
raise_issue (some issue) = raise (issue_error issue)

-- IdolService.add_idol, on the row that the request describes.
unfoldable pub add_idol : Idol → User → Service Idol
add_idol idol current_user = do
  raise_if (plain ErrorClass.forbidden) (is_out_of_scope current_user idol.company_id)
  error ← query (validate_refs idol.company_id idol.group_id idol.color_id)
  raise_issue error
  modify (λ db. record db { idols = db.idols ++ idol ∷ [] })
  commit
  pure idol

-- IdolUpdate
pub record IdolUpdate : Type 0 where
  pub name : Text
  pub group_id : Option Uuid
  pub date_of_birth : Option Time
  pub hometown : Option Text
  pub color_id : Option Uuid
  pub short_intro : Option Text
  pub long_description : Option Text
  pub profile_image_url : Option Text

-- `data.group_id == db_idol.group_id`
abbrev pub same_group : Option Uuid → Option Uuid → Bool
same_group none none = true
same_group (some g) (some h) = g == h
same_group _ _ = false

-- Staying in a group that has been deactivated is no issue.
abbrev pub excused : Bool → Option RefIssue → Option RefIssue
excused true (some RefIssue.group_inactive) = none
excused stays issue = issue

abbrev pub updated_idol : IdolUpdate → Idol → Idol
updated_idol data' idol = record idol {
  name = data'.name;
  group_id = data'.group_id;
  date_of_birth = data'.date_of_birth;
  hometown = data'.hometown;
  color_id = data'.color_id;
  short_intro = data'.short_intro;
  long_description = data'.long_description;
  profile_image_url = data'.profile_image_url;
}

-- UPDATE of an idol, under the foreign key on color_id.
unfoldable pub write_idol : Idol → Service (Unit {0})
write_idol idol =
    write
      (λ db.
        if is_missing_color idol.color_id db then some (plain ErrorClass.dbapi_error) else none)
      (put_idol idol)

-- IdolService.update_idol
unfoldable pub update_idol : Uuid → IdolUpdate → User → Service Idol
update_idol idol_id' data' current_user = do
  db_idol ← found (plain ErrorClass.not_found) (← query (find_idol idol_id'))
  raise_if (plain ErrorClass.forbidden) (is_out_of_scope current_user db_idol.company_id)
  error ← query (validate_refs db_idol.company_id data'.group_id data'.color_id)
  raise_issue (excused (same_group data'.group_id db_idol.group_id) error)
  write_idol (updated_idol data' db_idol)
  commit
  pure (updated_idol data' db_idol)

-- The lookup and the guard of delete_idol, reactivate_idol and set_idol_image, and then the change
-- of the row.
unfoldable pub change_idol : (Idol → Idol) → Uuid → User → Service Idol
change_idol f idol_id' current_user = do
  db_idol ← found (plain ErrorClass.not_found) (← query (find_idol idol_id'))
  raise_if (plain ErrorClass.forbidden) (is_out_of_scope current_user db_idol.company_id)
  modify (put_idol (f db_idol))
  commit
  pure (f db_idol)

-- IdolService.delete_idol
unfoldable pub delete_idol : Uuid → User → Service Idol
delete_idol = change_idol (λ idol. record idol { is_active = false })

-- IdolService.reactivate_idol
unfoldable pub reactivate_idol : Uuid → User → Service Idol
reactivate_idol = change_idol (λ idol. record idol { is_active = true })

-- IdolService.set_idol_image
unfoldable pub set_idol_image : Text → Uuid → User → Service Idol
set_idol_image image_url = change_idol (λ idol. record idol { profile_image_url = some image_url })

-- IdolService.get_idols
unfoldable pub get_idols : Service (List Idol)
get_idols = query (λ db. filter (λ i. i.is_active) db.idols)

-- IdolService.get_idol
unfoldable pub get_idol : Uuid → Service (Option Idol)
get_idol idol_id' = query (find_idol idol_id')

-- MembersPageRead and ManagerIdolsPageRead
pub record IdolsPage : Type 0 where
  pub idols : List Idol
  pub groups : List Group

-- IdolService.get_members_page
unfoldable pub get_members_page : Service IdolsPage
get_members_page = query (λ db. record {
  idols = filter (λ i. i.is_active) db.idols;
  groups = filter (λ g. g.is_active) db.groups;
})

-- IdolService.get_manager_idols_page
unfoldable pub get_manager_idols_page : Service IdolsPage
get_manager_idols_page = query (λ db. record { idols = db.idols; groups = db.groups })

-- IdolService.scope_manager_idols_page
unfoldable pub scope_manager_idols_page : IdolsPage → User → IdolsPage
scope_manager_idols_page page current_user =
    if is_manager current_user.role
    then (let idols' =
          filter (λ i. same_company (some i.company_id) current_user.company_id) page.idols in
        record { idols = idols'; groups = filter (λ g. any (is_member g.id) idols') page.groups })
    else page

-- IdolDetailRead
pub record IdolDetail : Type 0 where
  pub idol : Idol
  pub group : Option Group
  pub siblings : List Idol

abbrev pub group_of : Option Uuid → Database → Option Group
group_of none db = none
group_of (some g) db = find_group g db

-- IdolService.get_idol_detail, after the lookup of the idol.
unfoldable pub detail_of : Option Idol → Database → Option IdolDetail
detail_of none db = none
detail_of (some idol) db =
    if idol.is_active
    then some (record {
      idol = idol;
      group = group_of idol.group_id db;
      siblings =
          filter (λ i. not (i.id == idol.id) && i.is_active && same_group i.group_id idol.group_id)
            db.idols;
    })
    else none

unfoldable pub get_idol_detail : Uuid → Service (Option IdolDetail)
get_idol_detail idol_id' = query (λ db. detail_of (find_idol idol_id' db) db)
