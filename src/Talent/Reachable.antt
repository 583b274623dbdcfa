-- ===== src/Talent/Reachable.antt =====
-- The group and idol services in any order: what holds in every database that they reach, and what
-- one call of them may do.
use i_dolly_backend.Catalogue.{find_group}
use i_dolly_backend.Database.{Database}
use i_dolly_backend.Prelude.{
  ◌≡◌, refl, sym, ◌∙◌, subst, false, Option, some, All-find, key-find, ◌==◌,
}
use i_dolly_backend.Session.{start}
use i_dolly_backend.Tables.{Group, Idol, Text, Time, User, Uuid}
use i_dolly_backend.Talent.Companies.{
  CompaniesMatch, append_group-CompaniesMatch, append_idol-CompaniesMatch, put_group-CompaniesMatch,
  put_idol-CompaniesMatch, validate_refs-is_placed,
}
use i_dolly_backend.Talent.Groups.{
  add_group, change_group, delete_group, reactivate_group, update_group,
}
use i_dolly_backend.Talent.Idols.{
  IdolUpdate, add_idol, change_idol, delete_idol, reactivate_idol, set_idol_image, update_idol,
  updated_idol,
}
use i_dolly_backend.Talent.Members.{
  add_group-Holds, add_idol-Holds, change_group-Holds, change_idol-Holds, update_idol-Holds,
}

-- One call of the group or idol service, run in a session of its own.
pub data Step (db : Database) : Database → Type 0 where
  group_added :
      (group : Group) (user : User) → Step db (add_group group user (start db)).1.committed
  group_updated :
      (name' : Text) (debut : Option Time) (description' : Option Text) (k : Uuid) (user : User)
      → Step db (update_group name' debut description' k user (start db)).1.committed
  group_deleted : (k : Uuid) (user : User) → Step db (delete_group k user (start db)).1.committed
  group_reactivated :
      (k : Uuid) (user : User) → Step db (reactivate_group k user (start db)).1.committed
  idol_added : (idol : Idol) (user : User) → Step db (add_idol idol user (start db)).1.committed
  idol_updated :
      (k : Uuid) (data' : IdolUpdate) (user : User)
      → Step db (update_idol k data' user (start db)).1.committed
  idol_deleted : (k : Uuid) (user : User) → Step db (delete_idol k user (start db)).1.committed
  idol_reactivated :
      (k : Uuid) (user : User) → Step db (reactivate_idol k user (start db)).1.committed
  idol_pictured :
      (image : Text) (k : Uuid) (user : User)
      → Step db (set_idol_image image k user (start db)).1.committed

pub data Reach (db : Database) : Database → Type 0 where
  here : Reach db db
  next : {mid db' : Database} → Reach db mid → Step mid db' → Reach db db'

-- A change of a group that keeps its id and company, and of an idol that keeps its place.
change_group-CompaniesMatch :
    (f : Group → Group) (k : Uuid) (user : User) (db : Database)
    → ((g : Group) → (f g).id ≡ g.id)
    → ((g : Group) → (f g).company_id ≡ g.company_id)
    → CompaniesMatch db
    → CompaniesMatch (change_group f k user (start db)).1.committed
change_group-CompaniesMatch f k user db same own h =
    (change_group-Holds CompaniesMatch f k user (start db) (h, h)
      λ old seen.
        let at : old.id ≡ k = key-find (λ g. g.id) k db.groups seen in
        put_group-CompaniesMatch old (f old) db
          (subst (λ j. find_group j db ≡ some old) (sym (same old ∙ at)) seen) (own old) h).1

change_idol-CompaniesMatch :
    (f : Idol → Idol) (k : Uuid) (user : User) (db : Database)
    → ((i : Idol) → (f i).company_id ≡ i.company_id)
    → ((i : Idol) → (f i).group_id ≡ i.group_id)
    → CompaniesMatch db
    → CompaniesMatch (change_idol f k user (start db)).1.committed
change_idol-CompaniesMatch f k user db own same h =
    (change_idol-Holds CompaniesMatch f k user (start db) (h, h)
      λ old seen.
        let placed = All-find _ (λ i. i.id == k) db.idols h seen in
        put_idol-CompaniesMatch (f old) db (rw (own old, same old) placed) h).1

Step-CompaniesMatch : {db db' : Database} → Step db db' → CompaniesMatch db → CompaniesMatch db'
unfolding update_group delete_group reactivate_group delete_idol reactivate_idol set_idol_image
Step-CompaniesMatch {db} (group_added group user) h =
    (add_group-Holds CompaniesMatch group user (start db) (h, h)
      (append_group-CompaniesMatch group db h)).1
Step-CompaniesMatch {db} (group_updated name' debut description' k user) h =
    change_group-CompaniesMatch _ k user db (λ _. refl) (λ _. refl) h
Step-CompaniesMatch {db} (group_deleted k user) h =
    change_group-CompaniesMatch _ k user db (λ _. refl) (λ _. refl) h
Step-CompaniesMatch {db} (group_reactivated k user) h =
    change_group-CompaniesMatch _ k user db (λ _. refl) (λ _. refl) h
Step-CompaniesMatch {db} (idol_added idol user) h =
    (add_idol-Holds CompaniesMatch idol user (start db) (h, h)
      λ valid.
        append_idol-CompaniesMatch idol db
          (validate_refs-is_placed false idol.company_id idol.group_id idol.color_id db
            (rw valid refl))
          h).1
Step-CompaniesMatch {db} (idol_updated k data' user) h =
    (update_idol-Holds CompaniesMatch k data' user (start db) (h, h)
      λ old seen valid.
        put_idol-CompaniesMatch (updated_idol data' old) db
          (validate_refs-is_placed _ old.company_id data'.group_id data'.color_id db valid) h).1
Step-CompaniesMatch {db} (idol_deleted k user) h =
    change_idol-CompaniesMatch _ k user db (λ _. refl) (λ _. refl) h
Step-CompaniesMatch {db} (idol_reactivated k user) h =
    change_idol-CompaniesMatch _ k user db (λ _. refl) (λ _. refl) h
Step-CompaniesMatch {db} (idol_pictured image k user) h =
    change_idol-CompaniesMatch _ k user db (λ _. refl) (λ _. refl) h

-- In every database that calls of the group and idol services reach, in any order and by any
-- users, every idol that is in a group is of the group's company.
pub Reach-CompaniesMatch :
    {db db' : Database} → Reach db db' → CompaniesMatch db → CompaniesMatch db'
Reach-CompaniesMatch here h = h
Reach-CompaniesMatch (next r st) h = Step-CompaniesMatch st (Reach-CompaniesMatch r h)
