-- ===== src/Talent/Tests.antt =====
-- The group and idol services, run on the small catalogue.
use i_dolly_backend.Catalogue.Shop.{group_of_company, idol_of_group, shop}
use i_dolly_backend.Fixtures.{manager}
use i_dolly_backend.Prelude.{◌≤◌, refl, false, some, arith, count}
use i_dolly_backend.Schema.{UserRole}
use i_dolly_backend.Session.{start}
use i_dolly_backend.Tables.{User}
use i_dolly_backend.Talent.Companies.{CompaniesMatch}
use i_dolly_backend.Talent.Groups.{delete_group, is_member}
use i_dolly_backend.Talent.Idols.{add_idol}
use i_dolly_backend.Talent.Inactive.{Step-is_member}
use i_dolly_backend.Talent.Reachable.{Reach, Reach-CompaniesMatch, Step}

-- The manager adds an idol to the company's group, and then deactivates the group.
Reach-CompaniesMatch_example :
    CompaniesMatch
      (delete_group 50 manager (
        start
          (add_idol (idol_of_group 57 7 (some 50)) manager (start shop)).1.committed)).1.committed
Reach-CompaniesMatch_example =
    Reach-CompaniesMatch
      (Reach.next (Reach.next Reach.here (Step.idol_added (idol_of_group 57 7 (some 50)) manager))
        (Step.group_deleted 50 manager))
      (refl, (refl, tt))

abbrev admin : User
admin = record manager { role = UserRole.admin }

-- An idol for the deactivated group.
Step-is_member_example :
    count
      (is_member 51)
      (add_idol (idol_of_group 57 9 (some 51)) admin (start shop)).1.committed.idols
    ≤ count (is_member 51) shop.idols
Step-is_member_example =
    Step-is_member 51 (group_of_company 51 9 false)
      (Step.idol_added (idol_of_group 57 9 (some 51)) admin) refl refl (λ j. ground arith)
