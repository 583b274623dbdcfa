-- ===== src/Talent/Groups.antt =====
-- app/services/talent/group_service.py.
use i_dolly_backend.Catalogue.{find_group}
use i_dolly_backend.Database.{Database}
use i_dolly_backend.Error.{ErrorClass, plain}
use i_dolly_backend.Prelude.{
  ℕ, Bool, true, false, not, Option, none, some, List, [], ◌∷◌, ◌++◌, map, if◌then◌else◌, ◌==◌,
  contains, count, filter, update,
}
use i_dolly_backend.Rows.{same_company}
use i_dolly_backend.Schema.{is_manager}
use i_dolly_backend.Session.{Service, pure, query, found, raise_if, modify, commit, ◌>>=◌, ◌>>◌}
use i_dolly_backend.Tables.{Group, Idol, Text, Time, User, Uuid}
use i_dolly_backend.Talent.{is_out_of_scope}

abbrev pub put_group : Group → Database → Database
put_group group db = record db { groups = update (λ g. g.id == group.id) (λ _. group) db.groups }

-- GroupService.add_group, on the row that the request describes.
unfoldable pub add_group : Group → User → Service Group
add_group group current_user = do
  raise_if (plain ErrorClass.forbidden) (is_out_of_scope current_user group.company_id)
  raise_if (plain ErrorClass.not_found)
      (not (← query (λ db. contains group.company_id db.management_companies)))
  modify (λ db. record db { groups = db.groups ++ group ∷ [] })
  commit
  pure group

-- GroupService.get_groups
unfoldable pub get_groups : Service (List Group)
get_groups = query (λ db. filter (λ g. g.is_active) db.groups)

-- GroupService.get_group
unfoldable pub get_group : Uuid → Service (Option Group)
get_group group_id' = query (find_group group_id')

-- The lookup and the guard of update_group, delete_group and reactivate_group, and then the change
-- of the row.
unfoldable pub change_group : (Group → Group) → Uuid → User → Service Group
change_group f group_id' current_user = do
  db_group ← found (plain ErrorClass.not_found) (← query (find_group group_id'))
  raise_if (plain ErrorClass.forbidden) (is_out_of_scope current_user db_group.company_id)
  modify (put_group (f db_group))
  commit
  pure (f db_group)

abbrev pub updated_group : Text → Option Time → Option Text → Group → Group
updated_group name' debut_date' description' group = record group {
  name = name';
  debut_date = debut_date';
  description = description';
}

-- GroupService.update_group
unfoldable pub update_group : Text → Option Time → Option Text → Uuid → User → Service Group
update_group name' debut_date' description' =
    change_group (updated_group name' debut_date' description')

-- GroupService.delete_group
unfoldable pub delete_group : Uuid → User → Service Group
delete_group = change_group (λ group. record group { is_active = false })

-- GroupService.reactivate_group
unfoldable pub reactivate_group : Uuid → User → Service Group
reactivate_group = change_group (λ group. record group { is_active = true })

abbrev pub is_member : Uuid → Idol → Bool
is_member group_id' idol = elim idol.group_id [ none ↦ false | some g ↦ g == group_id' ]

-- GroupService.get_groups_page: the active groups, each with its `member_count`.
unfoldable pub get_groups_page : Service (List (Group × ℕ))
get_groups_page =
    query
      (λ db. map (λ g. (g, count (is_member g.id) db.idols)) (filter (λ g. g.is_active) db.groups))

-- GroupService.get_manager_groups_page
unfoldable pub get_manager_groups_page : Service (List Group)
get_manager_groups_page = query (λ db. db.groups)

-- GroupService.scope_manager_groups_page
unfoldable pub scope_manager_groups_page : List Group → User → List Group
scope_manager_groups_page groups' current_user =
    if is_manager current_user.role
    then filter (λ g. same_company (some g.company_id) current_user.company_id) groups'
    else groups'
