-- ===== src/Talent.antt =====
-- What the services of app/services/talent share: the scope of a manager, and the checks of the
-- rows that an idol refers to.
pub mod Groups
pub mod Idols
pub mod Positions
pub mod Members
pub mod Companies
pub mod Reachable
pub mod Inactive
mod Tests
use i_dolly_backend.Catalogue.{find_group}
use i_dolly_backend.Catalogue.Details.{is_missing_color}
use i_dolly_backend.Database.{Database}
use i_dolly_backend.Prelude.{
  Bool, true, false, not, ◌&&◌, Option, none, some, if◌then◌else◌, ◌==◌, contains,
}
use i_dolly_backend.Rows.{same_company}
use i_dolly_backend.Schema.{is_manager}
use i_dolly_backend.Tables.{Group, User, Uuid}

-- `_manager_scope_violation`
abbrev pub is_out_of_scope : User → Uuid → Bool
is_out_of_scope current_user company_id' =
    is_manager current_user.role && not (same_company current_user.company_id (some company_id'))

-- `_RefIssue`
pub data RefIssue : Type 0 where
  company_not_found group_not_found company_mismatch group_inactive color_not_found : RefIssue

abbrev pub color_issue : Option Uuid → Database → Option RefIssue
color_issue color_id' db =
    if is_missing_color color_id' db then some RefIssue.color_not_found else none

-- The checks on the group, and those after them.
abbrev pub group_issue : Uuid → Option Group → Option RefIssue → Option RefIssue
group_issue company_id' none rest = some RefIssue.group_not_found
group_issue company_id' (some group) rest =
    if group.company_id == company_id'
    then (if group.is_active then rest else some RefIssue.group_inactive)
    else some RefIssue.company_mismatch

abbrev pub member_issue : Uuid → Option Uuid → Option RefIssue → Database → Option RefIssue
member_issue company_id' none rest db = rest
member_issue company_id' (some group_id') rest db =
    group_issue company_id' (find_group group_id' db) rest

-- IdolService._validate_refs
unfoldable pub validate_refs : Uuid → Option Uuid → Option Uuid → Database → Option RefIssue
validate_refs company_id' group_id' color_id' db =
    if contains company_id' db.management_companies
    then member_issue company_id' group_id' (color_issue color_id' db) db
    else some RefIssue.company_not_found
